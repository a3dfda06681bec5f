-- ===== src/Bus.antt =====
-- src/ebus.h: what every bus access and register handler answers.

-- `enum EBusSuccess`
pub data BusStatus : Type 0 where
  success bus_error : BusStatus
