-- ===== src/Apiserver/Handler/Keepalive.antt =====
-- apiserver/handler/factor.go: KeepaliveQuery, and the probe of the orderer's port.
use Prim.Native.String.{◌++◌ as str_append}
use test_fabric.Base.{
  ℕ, String, Bool, true, false, Option, none, some, List, Error, State, ◌==◌, if◌then◌else◌,
}
use test_fabric.Base.Int.{pos}
use test_fabric.Base.Go.{Go, ◌>>=◌, pure, call}
use test_fabric.Apiserver.Sdk.Peers.{Policy, Sdk, Network, peer_keepalive}
use test_fabric.Apiserver.Handler.Web.{Request, WriterCall, nothing, WebCodec, status_ok, response}

abbrev pub peer_fail_code : ℕ
peer_fail_code = 601

abbrev pub order_fail_code : ℕ
order_fail_code = 602

-- SetOrderAddrToProbe: whether the address is taken, and `targetOrderAddr` afterwards.
unfoldable pub set_order_addr_to_probe : String → String → Bool × String
set_order_addr_to_probe addr target_order_addr =
    if addr == "" then (false, target_order_addr) else (true, addr)

module _ {World : Type 0} (network : Network World)
    -- `exec.Command("/bin/bash", "-c", command).Run()`
    (run_shell : String → State World (Option Error)) (web : WebCodec) (policy : Policy) (sdk : Sdk)
    (target_order_addr : String) where
  abbrev pub is_none : Option Error → Bool
  is_none none = true
  is_none (some e) = false

  unfoldable pub order_keepalive : Go World Bool
  order_keepalive = do
    failed ← call (run_shell (str_append "nc -v " target_order_addr))
    pure (is_none failed)

  abbrev pub probed : Request → Bool → List WriterCall
  probed c true =
      response web nothing c status_ok (record { status_code = pos 200; status_msg = "SUCCESS" })
        none
  probed c false =
      response web nothing c order_fail_code
        (record { status_code = pos order_fail_code; status_msg = "Order FAILED" }) none

  abbrev pub peer_probed : Request → Bool → Go World (List WriterCall)
  peer_probed c true = do reached ← order_keepalive; pure (probed c reached)
  peer_probed c false = pure (
      response web nothing c peer_fail_code
        (record { status_code = pos peer_fail_code; status_msg = "Peer FAILED" }) none)

  unfoldable pub keepalive_query : Request → Go World (List WriterCall)
  unfolding order_keepalive peer_keepalive response
  keepalive_query c = do
    reached ← peer_keepalive network policy sdk "KeepaliveQuery"
    peer_probed c reached
