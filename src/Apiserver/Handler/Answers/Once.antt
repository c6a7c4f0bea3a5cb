-- ===== src/Apiserver/Handler/Answers/Once.antt =====
-- The handlers of the routes that write one answer.
use test_fabric.Base.{ℕ, String, ◌≡◌, Bool, true, false, none, some, List, [], ◌∷◌, Result, ok, err}
use test_fabric.Base.Go.{After-map, After, bind_any-After}
use test_fabric.Apiserver.Sdk.Peers.{peer_keepalive}
use test_fabric.Apiserver.Sdk.Documents.{dsl, dsl_query}
use test_fabric.Apiserver.Handler.Web.{
  Request, WriterCall, contents, nothing, failure, status_no_content,
}
use test_fabric.Apiserver.Handler.Save.{save_data}
use test_fabric.Apiserver.Handler.Search.{status_of, dsl_body, search}
use test_fabric.Apiserver.Handler.Keepalive.{order_keepalive, probed, peer_probed, keepalive_query}
use test_fabric.Apiserver.Handler.Routes.{
  Handler, on_save_data, on_dsl_query, on_keepalive_query, on_block_query, on_block_query_ex,
  Server, handle,
}
use test_fabric.Apiserver.Handler.Answers.{statuses, statuses-response}
use test_fabric.Apiserver.Handler.Answers.Saved.{IsSaved, save_data-IsSaved}

abbrev pub IsOnce : List WriterCall → Type 0
IsOnce calls = (status : ℕ) × (statuses calls ≡ status ∷ [])

-- The handlers but those of the blocks.
abbrev pub is_single : Handler → Bool
is_single on_save_data = true
is_single on_dsl_query = true
is_single on_keepalive_query = true
is_single on_block_query = false
is_single on_block_query_ex = false

module _ (server : Server) (c : Request) where
  open server use {
    host, ciphers, network, couch, protos, codec, events, replies, web, run_shell, policy, sdk,
    chain_id, user_id, target_order_addr,
  }

  dsl_body-IsOnce :
      (body : Result String) (w : host.World)
      → After IsOnce
          (dsl_body host ciphers network couch protos events replies web policy sdk chain_id user_id
            c body w).0
  dsl_body-IsOnce (err e) w =
      (status_no_content, statuses-response web nothing c status_no_content (failure e) none)
  dsl_body-IsOnce (ok body) w =
      bind_any-After IsOnce (dsl host ciphers network couch user_id dsl_query _) _ w
        λ (found, ret, page, e) t. (
          (status_of ret e).0,
          statuses-response web (contents found) c (status_of ret e).0 (status_of ret e).1
              (some page),
        )

  probed-IsOnce :
      (reached : Bool)
      → IsOnce (probed network run_shell web policy sdk target_order_addr c reached)
  probed-IsOnce true = (200, statuses-response web nothing c 200 _ none)
  probed-IsOnce false = (602, statuses-response web nothing c 602 _ none)

  peer_probed-IsOnce :
      (reached : Bool) (w : host.World)
      → After IsOnce (peer_probed network run_shell web policy sdk target_order_addr c reached w).0
  peer_probed-IsOnce true w =
      bind_any-After IsOnce (order_keepalive network run_shell web policy sdk target_order_addr) _ w
        λ reached t. probed-IsOnce reached
  peer_probed-IsOnce false w = (601, statuses-response web nothing c 601 _ none)

  -- If the handler of a route returns, other than the two of blocks, it has answered exactly once.
  pub handle-IsOnce :
      (h : Handler) (w : host.World) → is_single h ≡ true → After IsOnce (handle server h c w).0
  unfolding handle save_data search keepalive_query
  handle-IsOnce on_save_data w single =
      After-map (IsSaved host ciphers network codec policy sdk web c) IsOnce
        (save_data host ciphers network codec web policy sdk c w).0
        (save_data-IsSaved host ciphers network codec web policy sdk c w)
        (λ calls (status, e, rest). (status, e))
  handle-IsOnce on_dsl_query w single = dsl_body-IsOnce c.body w
  handle-IsOnce on_keepalive_query w single =
      bind_any-After IsOnce (peer_keepalive network policy sdk "KeepaliveQuery") _ w
        λ reached t. peer_probed-IsOnce reached t
  handle-IsOnce on_block_query w single = cc
  handle-IsOnce on_block_query_ex w single = cc
