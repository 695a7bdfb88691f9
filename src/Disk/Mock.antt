-- ===== src/Disk/Mock.antt =====
-- The controller that does nothing, for tests of other parts (disk_mock.rs).
use simulatron.Common.{some}
use simulatron.Platform.{DiskController}

-- `MockDiskController`, which has no fields
abbrev pub mock_disk : DiskController (Unit {0})
mock_disk = record {
  store_control = λ self address value. some self;
  load_status = λ self address. some 0;
  store_data = λ self address value. some self;
  load_data = λ self address. some 0;
}
