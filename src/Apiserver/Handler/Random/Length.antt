-- ===== src/Apiserver/Handler/Random/Length.antt =====
-- The texts that GetRandomString makes.
use Prim.Native.String.{◌++◌}
use Prim.Native.Char.{Char}
use Prim.Native.String.append
use test_fabric.Base.{ℕ, zero, suc, ◌+◌, ◌<◌, String, ◌≡◌, refl, some, arith}
use test_fabric.Base.Go.{done}
use test_fabric.Apiserver.Sdk.Peers.{Network}
use test_fabric.Apiserver.Sdk.Peers.Choice.{DrawsBelow}
use test_fabric.Apiserver.Handler.Random.{alphabet, byte_at, draw_string, get_random_string}

-- `len` of a text.
abbrev pub size : String → ℕ
size String.[] = 0
size (String.◌∷◌ c s) = suc (size s)

-- Each byte of the text is one of the alphabet's.
abbrev pub IsMadeOf : String → String → Type 0
IsMadeOf from String.[] = Unit
IsMadeOf from (String.◌∷◌ c s) =
    ((i : ℕ) × (byte_at from i ≡ some (String.◌∷◌ c ""))) × IsMadeOf from s

size-append : (s t : String) → size (s ++ t) ≡ size s + size t
size-append String.[] t = rw (append.nil t) (omega arith)
size-append (String.◌∷◌ c s) t = rw (append.cons c s t) (omega (arith, size-append s t))

IsMadeOf-append : (from s t : String) → IsMadeOf from s → IsMadeOf from t → IsMadeOf from (s ++ t)
IsMadeOf-append from String.[] t hs ht = rw (append.nil t) ht
IsMadeOf-append from (String.◌∷◌ c s) t hs ht =
    rw (append.cons c s t) (hs.0, IsMadeOf-append from s t hs.1 ht)

byte_at-some :
    (from : String) (i : ℕ) → i < size from → (c : Char) × (byte_at from i ≡ some (String.◌∷◌ c ""))
unfolding byte_at
byte_at-some String.[] i h = absurd (omega (arith, h))
byte_at-some (String.◌∷◌ c s) zero h = (c, refl)
byte_at-some (String.◌∷◌ c s) (suc i) h = byte_at-some s i (omega (arith, h))

module _ {World : Type 0} (network : Network World) (draws : DrawsBelow network) where
  draw_string-size :
      (l : ℕ) (result : String) (w : World)
      → IsMadeOf alphabet result
      → (text : String) × ((draw_string network l result w).0 ≡ done text)
        × (size text ≡ size result + l)
        × IsMadeOf alphabet text
  unfolding draw_string
  draw_string-size zero result w made = (result, refl, omega arith, made)
  draw_string-size (suc l) result w made =
      let i = (network.intn 36 w).0 in
      let (c, at) = byte_at-some alphabet i (draws.drawn 36 w (omega arith)) in
      let byte : String = String.◌∷◌ c "" in
      let (text, e, long, all) =
        draw_string-size l (result ++ byte) (network.intn 36 w).1
          (IsMadeOf-append alphabet result byte made ((i, at), tt)) in
      (text, rw (at, e) refl, omega (arith, long, size-append result byte), all)

  -- If `rand.Intn` draws below its bound, GetRandomString returns, without a panic, a text of the
  -- length that it is asked for, each byte of which is one of the 36 of its alphabet.
  pub get_random_string-size :
      (l : ℕ) (w : World)
      → (text : String) × ((get_random_string network l w).0 ≡ done text)
        × (size text ≡ l)
        × IsMadeOf alphabet text
  unfolding get_random_string
  get_random_string-size l w =
      let (text, e, long, made) = draw_string-size l "" w tt in (text, e, omega (arith, long), made)
