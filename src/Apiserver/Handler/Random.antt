-- ===== src/Apiserver/Handler/Random.antt =====
-- apiserver/handler/factor.go: GetRandomString, which makes the ids of the factors.
pub mod Length
use Prim.Native.String.{◌++◌}
use test_fabric.Base.{ℕ, zero, suc, String, Option, none, some}
use test_fabric.Base.Go.{Go, ◌>>=◌, pure, call, or_panic}
use test_fabric.Apiserver.Sdk.Peers.{Network}

abbrev pub alphabet : String
alphabet = "0123456789abcdefghijklmnopqrstuvwxyz"

-- The text of the byte at a place.
unfoldable pub byte_at : String → ℕ → Option String
byte_at String.[] i = none
byte_at (String.◌∷◌ c s) zero = some (String.◌∷◌ c "")
byte_at (String.◌∷◌ c s) (suc i) = byte_at s i

module _ {World : Type 0} (network : Network World) where
  -- The loop, over the rounds that are left.
  unfoldable pub draw_string : ℕ → String → Go World String
  unfolding byte_at
  draw_string zero result = pure result
  draw_string (suc l) result = do
    i ← call (network.intn 36)
    byte ← or_panic (byte_at alphabet i) "index out of range"
    draw_string l (result ++ byte)

  unfoldable pub get_random_string : ℕ → Go World String
  unfolding draw_string
  get_random_string l = draw_string l ""
