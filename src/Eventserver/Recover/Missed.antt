-- ===== src/Eventserver/Recover/Missed.antt =====
-- The loop over the missed blocks: it is the source's loop, and asks for each block once, in order.
use test_fabric.Base.{
  ℕ, zero, suc, ◌+◌, ◌-◌, ◌<◌, String, ◌≡◌, refl, ◌∙◌, ap, Bool, true, false, Option, none, some,
  List, [], ◌∷◌, ◌++◌, Error, Result, ok, err, ltb, Bool-cases, Option-cases, inl, inr,
  if◌then◌else◌, arith,
}
use mathlib.Core.List.{append-nil, append_assoc}
use test_fabric.Base.Go.{Go, done, then_run-done, bind-cong, ◌>>=◌, pure}
use test_fabric.Eventserver.Recover.{
  Chain, PeerResponse, block_in, block_of, get_block_by_number, print_number, if_true, recover,
}

-- The peer keeps a list of the queries that it was asked.
pub record LogsQueries {World : Type 0} (chain : Chain World) : Type 0 where
  pub log : World → List (List String)
  pub logged :
      (args peers : List String) (w : World)
      → log (chain.query_by_qscc args peers w).1 ≡ log w ++ args ∷ []

module _ {World : Type 0} (chain : Chain World) (chain_id : String) where
  -- The loop as the source writes it, `for ; n < height; n++`, on fuel.
  unfoldable pub recover_while : ℕ → ℕ → ℕ → Go World Bool
  recover_while zero height n = pure false
  recover_while (suc fuel) height n =
      if ltb n height
      then (do
        block ← get_block_by_number chain chain_id n
        came ← print_number chain block
        if_true chain came (recover_while fuel height (n + 1)))
      else pure true

  if_true-cong :
      (came : Bool) (next next' : Go World Bool) (t : World)
      → ((u : World) → next u ≡ next' u)
      → if_true chain came next t ≡ if_true chain came next' t
  if_true-cong true next next' t h = h t
  if_true-cong false next next' t h = refl

  recover_while-recover_rounds :
      (rounds fuel height n : ℕ) (w : World)
      → height ≡ n + rounds
      → rounds < fuel
      → recover_while fuel height n w ≡ recover chain chain_id rounds n w
  unfolding recover_while recover
  recover_while-recover_rounds rounds zero height n w e h = absurd (omega (arith, h))
  recover_while-recover_rounds zero (suc fuel) height n w e h =
      let stop : ltb n height ≡ false = ground arith in rw stop refl
  recover_while-recover_rounds (suc rounds) (suc fuel) height n w e h =
      let go : ltb n height ≡ true = ground arith in
      rw go (
        bind-cong (get_block_by_number chain chain_id n) _ _ w λ block t.
          bind-cong (print_number chain block) _ _ t λ came u. if_true-cong came _ _ u λ v.
            recover_while-recover_rounds rounds fuel height (n + 1) v (omega (arith, e))
              (omega (arith, h)))

  -- The loop as the source writes it, whatever the start and the height are, and with more fuel than
  -- the height, is the loop with as many rounds as the height is above the start.
  pub recover_while-recover :
      (fuel height start : ℕ) (w : World)
      → height < fuel
      → recover_while fuel height start w ≡ recover chain chain_id (height - start) start w
  unfolding recover_while recover
  recover_while-recover zero height start w h = absurd (omega (arith, h))
  recover_while-recover (suc fuel) height start w h = elim (Bool-cases (ltb start height)) [
    | inl below ↦
        recover_while-recover_rounds (height - start) (suc fuel) height start w (ground arith)
          (omega (arith, h))
    | inr above ↦ let nothing : height - start ≡ 0 = ground arith in rw (above, nothing) refl
  ]

  abbrev pub request : ℕ → List String
  request n = "GetBlockByNumber" ∷ chain_id ∷ chain.format_uint n ∷ []

  -- The queries for the blocks from a number on.
  abbrev pub requests : ℕ → ℕ → List (List String)
  requests zero n = []
  requests (suc rounds) n = request n ∷ requests rounds (n + 1)

  module _ (logs : LogsQueries chain) where
    open logs use {log}

    block_in-log :
        (e : Option Error) (payload : Option String) (w : World)
        → log (block_in chain e payload w).1 ≡ log w
    block_in-log (some e) payload w = refl
    block_in-log none none w = refl
    block_in-log none (some bytes) w = refl

    block_of-log :
        (resps : Result (List PeerResponse)) (w : World) → log (block_of chain resps w).1 ≡ log w
    block_of-log (err e) w = refl
    block_of-log (ok []) w = refl
    block_of-log (ok (resp ∷ resps)) w = block_in-log resp.error resp.payload w

    get_block_by_number-log :
        (n : ℕ) (w : World)
        → log (get_block_by_number chain chain_id n w).1 ≡ log w ++ request n ∷ []
    unfolding get_block_by_number
    get_block_by_number-log n w = block_of-log _ _ ∙ logs.logged (request n) ("peer0" ∷ []) w

    print_number-log :
        (block : Result chain.Block) (w : World) → log (print_number chain block w).1 ≡ log w
    print_number-log (err e) w = refl
    print_number-log (ok block) w = elim (Option-cases (chain.number block)) [
      | inl missing ↦ rw missing refl
      | inr (n, there) ↦ rw there refl
    ]

    if_true-log :
        (going : Bool) (next : Go World Bool) (w : World) (more : List (List String))
        → ((v : World) → (next v).0 ≡ done true → log (next v).1 ≡ log v ++ more)
        → (if_true chain going next w).0 ≡ done true
        → log (if_true chain going next w).1 ≡ log w ++ more
    if_true-log true next w more h e = h w e
    if_true-log false next w more h e = cc

    -- If the loop comes to its end, it has asked the peer for each block from the start up to the
    -- height, once and in order, and for nothing else.
    pub recover-log :
        (rounds start : ℕ) (w : World)
        → (recover chain chain_id rounds start w).0 ≡ done true
        → log (recover chain chain_id rounds start w).1 ≡ log w ++ requests rounds start
    unfolding recover
    recover-log zero start w came = rw append-nil refl
    recover-log (suc rounds) start w came =
        let got = get_block_by_number chain chain_id start w in
        let (block, e, after) = then_run-done got.0 _ got.1 true came in
        let printed = print_number chain block got.1 in
        let (going, f, last) = then_run-done printed.0 _ printed.1 true after in
        let asked = print_number-log block got.1 ∙ get_block_by_number-log start w in
        let rest = recover-log rounds (start + 1) in
        rw (e, f)
          (if_true-log going (recover chain chain_id rounds (start + 1)) printed.1
              (requests rounds (start + 1)) rest last
            ∙ ap (λ l. l ++ requests rounds (start + 1)) asked
            ∙ append_assoc (log w) (request start ∷ []) (requests rounds (start + 1)))
