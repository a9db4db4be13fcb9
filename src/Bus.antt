-- ===== src/Bus.antt =====
-- coremodel.c: the interface types, a module for each, and the loop over the packets that wait.
pub mod Queue
pub mod Stream
pub mod Handler
pub mod Keeping
pub mod Uart
pub mod Eth
pub mod I2c
pub mod Spi
pub mod Gpio
pub mod Can
pub mod Event
pub mod Usbh
mod Tests
