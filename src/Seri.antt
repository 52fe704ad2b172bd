-- ===== src/Seri.antt =====
-- skynet/lualib-src/lua-seri.c, the serialisation of Lua values that services exchange.
-- `Seri.Writer` has the write blocks, `Seri.Pack` the packing, `Seri.Unpack` the reading.
pub mod Value
pub mod Table
pub mod Writer
pub mod Pack
pub mod Unpack
pub mod Bytes
pub mod Sizes
pub mod Encoding
pub mod Scalars
pub mod Heads
pub mod Carried
pub mod Lengths
pub mod Steps
pub mod Entries
pub mod RoundTrip
pub mod Ends
mod Tests
