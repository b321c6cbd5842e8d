-- ===== src/Channel.antt =====
-- The two channels to the coordinator: class IqrfSpiChannel (IqrfSpiChannel/) and class IqrfCdcChannel
-- (IqrfCdcChannel/). Their drivers are other packages, and so records of functions on a world `W`.
pub mod Spi
pub mod SpiSending
pub mod SpiListening
pub mod Cdc
pub mod CdcSending
pub mod SpiThreads
pub mod SpiPolling
pub mod SpiExchange
mod Tests
mod ThreadTests
