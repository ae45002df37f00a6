-- ===== src/Types.antt =====
-- aot/common/types.h: identifiers, sides, trading pairs and the reserved "invalid" values.
-- uint64_t and uint32_t values are numbers; the reserved value is the largest of the type.
mod Defs
mod Equality
unfoldable pub use Defs.*
unfoldable pub use Equality.*
