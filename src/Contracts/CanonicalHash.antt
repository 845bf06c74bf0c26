-- ===== src/Contracts/CanonicalHash.antt =====
-- packages/contracts/src/canonical-hash.ts: the canonical text of a value and its SHA-256.
pub mod Stringify
pub mod Sha256
pub mod KeyOrder
use liminal_engine.Prelude.{ℕ, String, Option, none, some, List, [], or_else}
use liminal_engine.Contracts.Value.{Value}
use liminal_engine.Contracts.CanonicalHash.Stringify.{stable_stringify}
use liminal_engine.Contracts.CanonicalHash.Sha256.{sha256_hex}

-- `canonicalHash`. Encoding `undefined` gives no bytes.
unfoldable pub canonical_hash : Value → String
canonical_hash payload = sha256_hex (or_else (stable_stringify payload) [])
