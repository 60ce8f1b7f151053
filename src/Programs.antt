-- ===== src/Programs.antt =====
-- The programs of src/whitelib/programs, which the kernel runs after its start. Keys come as the list
-- of what `keyboard_scan_key` returns, one for each call; `running` is a wait for more keys.
pub mod Texts
pub mod Ramscroller
