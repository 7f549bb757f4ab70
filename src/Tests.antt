-- ===== src/Tests.antt =====
-- Concrete runs of the modelled code, and each theorem with hypotheses applied to one of them.
mod Filter
mod Kernel
mod Dispatcher
mod Decoding
mod Abi
mod Vec
mod Signed
mod Packages
mod Ntp
mod TcpStream
mod PcapFile
mod GenetFile
mod Session
