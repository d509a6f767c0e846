-- ===== src/Base/Bits.antt =====
-- Bytes and bitmaps: the macros `setbit`, `clrbit`, `isset` and `isclr` of <sys/param.h>, whose
-- bit `i` of a map is bit `i % NBBY` of byte `i / NBBY`, and their laws.
mod And
mod Byte
mod Map
pub use And.{bit_and_third, bit_and-four}
unfoldable pub use Byte.{everywhere, bit_of, IsByte}
pub use Byte.{everywhere_at}
unfoldable pub use Map.{isset, isclr, setbit, clrbit, count_clear, IsMap}
pub use Map.{isset-setbit, isset-clrbit, length-setbit, length-clrbit, setbit-IsMap, clrbit-IsMap}
pub use Map.{
  count_clear-le, clrbit-setbit, count_clear-setbit, count_clear-clrbit, count_clear-pos,
  count_clear-none, count_clear-ext,
}
