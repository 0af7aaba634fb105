-- ===== src/Fixture.antt =====
-- The device's side of the control port, as far as the runner depends on it:
-- integration_device_app/lib/device_test_controller.dart.
pub mod Payload
pub mod Log
