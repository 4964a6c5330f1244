-- ===== src/StubDrive.antt =====
-- runtime/drive_handler.go: the stub drives of a VM. Stub files are made before the VM starts; a
-- container or a drive mount later puts its own file behind one of them.
pub mod Options
pub mod Create
pub mod Handler
