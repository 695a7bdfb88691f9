-- ===== src/Mmu/Physical/Stores.antt =====
-- Byte stores of the machine with its real disks, by the memory map (mmu.rs, display.rs,
-- disk_real.rs).
use simulatron.Common.{
  ℕ, ◌-◌, ◌^◌, ◌<◌, ◌≤◌, ◌≡◌, refl, ◌∙◌, arith, Bool, false, ◌&&◌, ◌||◌, ltb, leb, some, length-set,
  subst,
}
use simulatron.Platform.{Float32}
use simulatron.Ram.Eager
use simulatron.Disk.Real.{RealDiskController, store_control, store_data}
use simulatron.Mmu.Zones.{
  begin_reserved_1, begin_display, begin_keyboard, begin_disk_a_status, begin_disk_a_address,
  begin_disk_b_status, begin_disk_b_address, begin_disk_a_data, begin_disk_b_data, begin_ram,
}
use simulatron.Mmu.Display.{
  UiCommand, Rgb, with_some, coloured, quantise, rgb, u8_to_printable_char,
}
use simulatron.Mmu.Display
use simulatron.Mmu.State.{Mmu}
use simulatron.Mmu.Physical.{then_put, store_vector, store_physical_8}
use simulatron.Disk.Access.{store_control-Ready, store_data-Ready, get_elem?-IsSome}
use simulatron.Mmu.Physical.Devices.{store-IsSome, store_ram-IsSome}
use simulatron.Mmu.Physical.Answers.{IsSound, machine, branch}
use simulatron.Mmu.Physical.Stored.{
  SetsCell, store-SetsCell, Stores, put-Stores, Ready-Stores, reject-Stores, first-IsStored,
  second-IsStored,
}
use simulatron.Disk.Stored.{IsDiskStored, elsewhere_lem, control_lem, data_lem}

module _ (debug : Bool) (float : Float32) (m : Mmu RealDiskController) (h : IsSound m) where
  unmoved_a :
      (address value : ℕ)
      → ((leb 0x1FF1 address && ltb address 0x1FF6) || (leb 0x2000 address && ltb address 0x3000))
        ≡ false
      → IsDiskStored 0x1FEC 0x2000 address value m.disk_a m.disk_a
  unmoved_a address value off = elsewhere_lem 0x1FEC 0x2000 address value m.disk_a h.first off

  unmoved_b :
      (address value : ℕ)
      → ((leb 0x1FFB address && ltb address 0x2000) || (leb 0x3000 address && ltb address 0x4000))
        ≡ false
      → IsDiskStored 0x1FF6 0x3000 address value m.disk_b m.disk_b
  unmoved_b address value off = elsewhere_lem 0x1FF6 0x3000 address value m.disk_b h.second off

  store_vector-Stores :
      (address value : ℕ) → address < 0x20 → Stores address value m (store_vector address value m)
  unfolding store_vector
  store_vector-Stores address value u =
      put-Stores address value m _ _ (ground arith)
        (get_elem?-IsSome m.interrupt_vector address (omega (arith, h.vector)))
        λ _ _. (
          record {
            vector = length-set m.interrupt_vector address value ∙ h.vector;
            rom = h.rom;
            first = h.first;
            second = h.second;
          },
          record {
            vector = ground arith;
            display = λ _. refl;
            shown = λ on. absurd (ground arith);
            first = unmoved_a address value (ground arith);
            second = unmoved_b address value (ground arith);
            ram = λ i. ground arith;
            same_rom = refl;
            same_channel = refl;
            same_keyboard = refl;
            same_pfsr = refl;
          },
        )

  display-Stores :
      (address value : ℕ)
      → 0x240 ≤ address
      → address < 0x19B0
      → Stores address value m (
          then_put
            (Display.store m.display (address - begin_display) value)
            (λ sent. record m { display = sent }))
  display-Stores address value l u =
      put-Stores address value m _ _ (ground arith)
        (store-IsSome m.display (address - begin_display) value (omega arith))
        λ sent e. (
          record { vector = h.vector; rom = h.rom; first = h.first; second = h.second },
          record {
            vector = ground arith;
            display = λ off. absurd (ground arith);
            shown = λ on. e;
            first = unmoved_a address value (ground arith);
            second = unmoved_b address value (ground arith);
            ram = λ i. ground arith;
            same_rom = refl;
            same_channel = refl;
            same_keyboard = refl;
            same_pfsr = refl;
          },
        )

  ram-Stores :
      (address value : ℕ)
      → 0x4000 ≤ address
      → address < 2 ^ 32
      → Stores address value m
          (then_put (Eager.store m.ram (address - begin_ram) value) (λ ram. record m { ram = ram }))
  ram-Stores address value l u =
      put-Stores address value m _ _ (ground arith)
        (store_ram-IsSome m.ram (address - begin_ram) value (omega arith))
        λ ram e.
          let cells : SetsCell m.ram (address - begin_ram) value (some ram) =
            subst (SetsCell m.ram (address - begin_ram) value) e
              (store-SetsCell m.ram (address - begin_ram) value) in
          (
            record { vector = h.vector; rom = h.rom; first = h.first; second = h.second },
            record {
              vector = ground arith;
              display = λ _. refl;
              shown = λ on. absurd (ground arith);
              first = unmoved_a address value (ground arith);
              second = unmoved_b address value (ground arith);
              ram = λ i. ground (arith, cells i);
              same_rom = refl;
              same_channel = refl;
              same_keyboard = refl;
              same_pfsr = refl;
            },
          )

  control_a-Stores :
      (address value : ℕ)
      → value < 2 ^ 8
      → 0x1FF1 ≤ address
      → address < 0x1FF6
      → Stores address value m (
          then_put
            (store_control m.disk_a (address - begin_disk_a_status) value)
            (λ disk_a. record m { disk_a = disk_a }))
  control_a-Stores address value v l u =
      Ready-Stores address value m _ _ (ground arith)
        (store_control-Ready m.disk_a (address - begin_disk_a_status) value h.first v (omega arith)
          (omega arith))
        λ c e r.
          first-IsStored address value m h c (omega arith) (omega arith)
            (control_lem 0x1FEC 0x2000 address value m.disk_a h.first c (ground arith)
              (ground arith) e r)
            (unmoved_b address value (ground arith))

  control_b-Stores :
      (address value : ℕ)
      → value < 2 ^ 8
      → 0x1FFB ≤ address
      → address < 0x2000
      → Stores address value m (
          then_put
            (store_control m.disk_b (address - begin_disk_b_status) value)
            (λ disk_b. record m { disk_b = disk_b }))
  control_b-Stores address value v l u =
      Ready-Stores address value m _ _ (ground arith)
        (store_control-Ready m.disk_b (address - begin_disk_b_status) value h.second v (omega arith)
          (omega arith))
        λ c e r.
          second-IsStored address value m h c (omega arith) (omega arith)
            (unmoved_a address value (ground arith))
            (control_lem 0x1FF6 0x3000 address value m.disk_b h.second c (ground arith)
              (ground arith) e r)

  data_a-Stores :
      (address value : ℕ)
      → 0x2000 ≤ address
      → address < 0x3000
      → Stores address value m (
          then_put
            (store_data m.disk_a (address - begin_disk_a_data) value)
            (λ disk_a. record m { disk_a = disk_a }))
  data_a-Stores address value l u =
      Ready-Stores address value m _ _ (ground arith)
        (store_data-Ready m.disk_a (address - begin_disk_a_data) value h.first (omega arith))
        λ c e r.
          first-IsStored address value m h c (omega arith) (omega arith)
            (data_lem 0x1FEC 0x2000 address value m.disk_a h.first c (ground arith) (ground arith) e
              r)
            (unmoved_b address value (ground arith))

  data_b-Stores :
      (address value : ℕ)
      → 0x3000 ≤ address
      → address < 0x4000
      → Stores address value m (
          then_put
            (store_data m.disk_b (address - begin_disk_b_data) value)
            (λ disk_b. record m { disk_b = disk_b }))
  data_b-Stores address value l u =
      Ready-Stores address value m _ _ (ground arith)
        (store_data-Ready m.disk_b (address - begin_disk_b_data) value h.second (omega arith))
        λ c e r.
          second-IsStored address value m h c (omega arith) (omega arith)
            (unmoved_a address value (ground arith))
            (data_lem 0x1FF6 0x3000 address value m.disk_b h.second c (ground arith) (ground arith)
              e r)

  -- While both disks run with their registers in bounds, and the vector and the ROM have their sizes,
  -- a byte stored at any physical address never panics, and is answered as the memory map says.
  -- Where the address can be written, the unit stays so, and each part of it takes the byte at its
  -- own addresses and stays at all others: the vector and RAM hold it there, the display carries it
  -- out, and the controller of disk A or B carries out the store to its register or holds the byte
  -- in its buffer. Elsewhere nothing changes but that an illegal operation is reported, and the
  -- error is to try again.
  pub store_physical_8-Stores :
      (address value : ℕ)
      → address < 2 ^ 32
      → value < 2 ^ 8
      → Stores address value m (store_physical_8 ⦃platform = machine debug float⦄ address value m)
  unfolding store_physical_8
  store_physical_8-Stores address value a v =
      let P = Stores address value m in
      let no = reject-Stores address value m in
      branch P (ltb address begin_reserved_1) _ _
        (λ e. store_vector-Stores address value (ground arith))
        λ n₁.
          branch P (ltb address begin_display) _ _ (λ e. no (ground arith))
            λ n₂.
              branch P (ltb address begin_keyboard) _ _
                (λ e. display-Stores address value (ground arith) (ground arith))
                λ n₃.
                  branch P (ltb address begin_disk_a_address) _ _ (λ e. no (ground arith))
                    λ n₄.
                      branch P (ltb address begin_disk_b_status) _ _
                        (λ e. control_a-Stores address value v (ground arith) (ground arith))
                        λ n₅.
                          branch P (ltb address begin_disk_b_address) _ _ (λ e. no (ground arith))
                            λ n₆.
                              branch P (ltb address begin_disk_a_data) _ _
                                (λ e.
                                  control_b-Stores address value v (ground arith) (ground arith))
                                λ n₇.
                                  branch P (ltb address begin_disk_b_data) _ _
                                    (λ e. data_a-Stores address value (ground arith) (ground arith))
                                    λ n₈.
                                      branch P (ltb address begin_ram) _ _
                                        (λ e.
                                          data_b-Stores address value (ground arith) (ground arith))
                                        λ n₉. ram-Stores address value (ground arith) a
