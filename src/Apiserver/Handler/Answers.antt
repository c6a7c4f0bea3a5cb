-- ===== src/Apiserver/Handler/Answers.antt =====
-- How often a handler answers: each answer has one call of `WriteHeader`.
pub mod Saved
pub mod Returns
pub mod Blocks
pub mod Once
pub mod Always
pub mod Found
pub mod Stored
pub mod Refused
use test_fabric.Base.{
  ℕ, String, ◌≡◌, refl, ap, ◌∙◌, Option, none, some, List, [], ◌∷◌, ◌++◌, ok, err,
}
use test_fabric.Apiserver.Define.{Page, ResponseStatus}
use test_fabric.Apiserver.Handler.Web.{
  Request, WriterCall, set_header, write_header, write, Body, WebCodec, page_header, response,
}

-- The statuses that are written, in their order.
abbrev pub statuses : List WriterCall → List ℕ
statuses [] = []
statuses (set_header k v ∷ calls) = statuses calls
statuses (write_header status ∷ calls) = status ∷ statuses calls
statuses (write b ∷ calls) = statuses calls

pub statuses-append : (a b : List WriterCall) → statuses (a ++ b) ≡ statuses a ++ statuses b
statuses-append [] b = refl
statuses-append (set_header k v ∷ a) b = statuses-append a b
statuses-append (write_header status ∷ a) b = ap (λ l. status ∷ l) (statuses-append a b)
statuses-append (write text ∷ a) b = statuses-append a b

pub statuses-response :
    (codec : WebCodec) (body : Body) (c : Request) (status : ℕ) (response_status : ResponseStatus)
    (page : Option Page)
    → statuses (response codec body c status response_status page) ≡ status ∷ []
unfolding response
statuses-response codec body c status response_status none = refl
statuses-response codec body c status response_status (some page) = refl
