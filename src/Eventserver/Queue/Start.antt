-- ===== src/Eventserver/Queue/Start.antt =====
-- Which brokers InitMQ leaves behind.
use test_fabric.Base.{String, ◌≡◌, refl, ◌≢◌, ◌∙◌, ◌↔◌, none, some, List, [], ◌∷◌, ◌++◌}
use mathlib.Core.List.{append_assoc, append-nil}
use test_fabric.Eventserver.Queue.{Amqp, MqInfo, connect, add_mq, connect_all, suitable, init_mq}

module _ {World : Type 0} (amqp : Amqp World) (name : String) where
  -- The brokers that were reached at the addresses, in their order; an address that could not be
  -- reached is left out.
  pub data AreConnected : List String → List (MqInfo amqp) → Type 0 where
    finished : AreConnected [] []
    refused :
        {addresses : List String} {mqs : List (MqInfo amqp)} (addr : String) (w : World)
        → (connect amqp name addr w).0 ≡ none
        → AreConnected addresses mqs
        → AreConnected (addr ∷ addresses) mqs
    joined :
        {addresses : List String} {mqs : List (MqInfo amqp)} (addr : String) (mq : MqInfo amqp)
        (w : World)
        → (connect amqp name addr w).0 ≡ some mq
        → AreConnected addresses mqs
        → AreConnected (addr ∷ addresses) (mq ∷ mqs)

  connect_all-AreConnected :
      (mqs : List (MqInfo amqp)) (addresses : List String) (w : World)
      → (new : List (MqInfo amqp)) × ((connect_all amqp name mqs addresses w).0 ≡ mqs ++ new)
        × AreConnected addresses new
  unfolding connect_all
  connect_all-AreConnected mqs [] w = ([], rw append-nil refl, finished)
  connect_all-AreConnected mqs (addr ∷ addresses) w =
      let got = connect amqp name addr w in
      elim got.0
          as (λ x.
            got.0 ≡ x
            → (new : List (MqInfo amqp)) × ((connect_all amqp name (add_mq amqp mqs x) addresses
                  got.1).0
                ≡ mqs ++ new)
              × AreConnected (addr ∷ addresses) new) [
                | none ↦ λ nobody.
                    let (new, e, all) = connect_all-AreConnected mqs addresses got.1 in
                    (new, e, refused addr w nobody all)
                | some mq ↦ λ there.
                    let (new, e, all) = connect_all-AreConnected (mqs ++ mq ∷ []) addresses got.1 in
                    (mq ∷ new, e ∙ append_assoc mqs (mq ∷ []) new, joined addr mq w there all)
              ]
        refl

  -- InitMQ keeps the brokers that it has, and adds one for each address at which the connection,
  -- the channel and the queue are made, in the order of the addresses. Its error is nil just if
  -- there is a broker afterwards.
  init_mq-AreConnected :
      (mqs : List (MqInfo amqp)) (addresses : List String) (w : World)
      → (new : List (MqInfo amqp)) × ((init_mq amqp name addresses mqs w).0.1 ≡ mqs ++ new)
        × AreConnected addresses new
        × (((init_mq amqp name addresses mqs w).0.0 ≡ none) ↔ (mqs ++ new ≢ []))
  unfolding init_mq
  init_mq-AreConnected mqs addresses w =
      let (new, e, all) = connect_all-AreConnected mqs addresses w in
      (new, e, all, rw e (suitable-some (mqs ++ new)))
    where
      suitable-some : (mqs : List (MqInfo amqp)) → (suitable amqp mqs ≡ none) ↔ (mqs ≢ [])
      suitable-some [] = (λ e. cc, λ ne. absurd (ne refl))
      suitable-some (mq ∷ rest) = (λ e e'. cc, λ ne. refl)
