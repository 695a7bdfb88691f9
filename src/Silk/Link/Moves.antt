-- ===== src/Silk/Link/Moves.antt =====
-- How the linker moves the entrypoint to the start (linker.rs).
use simulatron.Common.{
  ℕ, zero, suc, ◌+◌, ◌<◌, ◌≡◌, refl, ap, ◌∙◌, sym, arith, List, [], ◌∷◌, ◌++◌, some, length,
  get_elem?, set, get_elem?-some, length-set, get_elem?-append_right, length-append,
}
use simulatron.Silk.Result.{ok}
use simulatron.Silk.Link.{shift_up, move_to_start}

module _ {A : Type 0} where
  shift_up-suc :
      (i : ℕ) (v : List A) (x : A)
      → get_elem? v i ≡ some x
      → shift_up (suc i) v ≡ shift_up i (set v (suc i) x)
  unfolding shift_up
  shift_up-suc i v x e =
      let next : i + 1 ≡ suc i = omega arith in
      rw (e, shift_up) (ap (λ (k : ℕ). shift_up i (set v k x)) next)

  -- A round in front of the list copies its first item.
  shift_up-cons :
      (i : ℕ) (a : A) (v : List A)
      → i < length v
      → shift_up (suc i) (a ∷ v) ≡ a ∷ set (shift_up i v) 0 a
  unfolding shift_up
  shift_up-cons zero a v h = refl
  shift_up-cons (suc i) a v h =
      let (x, e) = get_elem?-some v i (omega arith) in
      shift_up-suc (suc i) (a ∷ v) x e
      ∙ shift_up-cons i a (set v (suc i) x) (omega (arith, length-set v (suc i) x))
      ∙ ap (λ w. a ∷ set w 0 a) (sym (shift_up-suc i v x e))

  shift_up_lem :
      (before after : List A) (x y : A)
      → set (shift_up (length before) (before ++ x ∷ after)) 0 y ≡ y ∷ before ++ after
  unfolding shift_up
  shift_up_lem [] after x y = refl
  shift_up_lem (b ∷ before) after x y =
      ap (λ w. set w 0 y)
        (shift_up-cons (length before) b (before ++ x ∷ after)
            (omega (arith, length-append before (x ∷ after)))
          ∙ ap (λ w. b ∷ w) (shift_up_lem before after x b))

  -- Moving an item to the start, from anywhere in a vector, puts it before the items that stood
  -- before it, in their order, and leaves those after it.
  pub move_to_start-rotates :
      (before : List A) (item : A) (after : List A)
      → move_to_start (before ++ item ∷ after) (length before) ≡ ok (item ∷ before ++ after)
  unfolding move_to_start
  move_to_start-rotates before item after =
      let e : get_elem? (before ++ item ∷ after) (length before) ≡ some item =
        get_elem?-append_right before (item ∷ after) (length before) 0 (omega arith) in
      rw (e, move_to_start) (ap ok (shift_up_lem before after item item))
