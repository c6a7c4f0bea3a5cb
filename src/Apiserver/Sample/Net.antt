-- ===== src/Apiserver/Sample/Net.antt =====
-- A network and a ledger in memory, in which each transaction has a block of its own, and a
-- database of two documents, one of which is no message.
use test_fabric.Base.Dict.{insert, lookup}
use test_fabric.Apiserver.Sdk.Peers.Ready.{empty_sdk}
use test_fabric.Apiserver.Sdk.Peers.Choice.{DrawsBelow}
use test_fabric.Apiserver.Sdk.Events.Whole.{IsWholeAction, IsWholeEnvelope, IsWholeBlock}
use test_fabric.Apiserver.Sdk.Blocks.Returns.{HasResponse}
use test_fabric.Base.{
  ℕ, suc, String, Option, none, some, List, [], ◌∷◌, Result, ok, err, get_elem?, ◌==◌, ◌≡◌, refl,
  subst, All, take, if◌then◌else◌,
}
use test_fabric.Base.Int.{pos}
use test_fabric.Apiserver.Define.{BlockchainData, Message}
use test_fabric.Apiserver.Sample.{host, factor}
use test_fabric.Apiserver.Sdk.Peers.{ClientConfig, Policy, Sdk, Network, set_send_peer_order}
use test_fabric.Apiserver.Sdk.Events.{ChaincodeEvent, Protos}
use test_fabric.Apiserver.Sdk.BlockQuery.{EventCodec}
use test_fabric.Apiserver.Sdk.Documents.{Couch}

abbrev pub answer : Option String → Result (List (Option String))
answer none = err "no arguments"
answer (some txid) = ok (some txid ∷ [])

abbrev pub network : Network ℕ
network = record {
  intn = λ n w. (0, w);
  invoke = λ args peers order w. (ok "tx1", suc w);
  query_by_qscc = λ args peers w. (answer (get_elem? args 2), suc w);
  query = λ args peers w. (ok [], suc w);
}

abbrev pub event : String → ChaincodeEvent
event txid = record { chaincode_id = "factor"; tx_id = txid; event_name = "saved"; payload = "{}" }

-- A block is the text of its only transaction.
abbrev pub protos : Protos
protos = record {
  Block = String;
  unmarshal_block = λ s. ok s;
  block_string = λ s. s;
  header = λ s. some (record { number = 1; previous_hash = "0"; data_hash = s });
  envelopes = λ s. some (s ∷ []);
  hex = λ s. s;
  Payload = String;
  get_tx_payload = λ s. some s;
  channel_header = λ s. some s;
  payload_data = λ s. s;
  unmarshal_channel_header = λ s. ok (pos 3);
  get_transaction = λ s. ok (s ∷ []);
  get_chaincode_action_payload = λ s. ok (some s);
  get_proposal_response_payload = λ s. ok s;
  get_chaincode_action = λ s. ok s;
  get_chaincode_events = λ s. (event s, none);
}

abbrev pub policy : Policy
policy = record { orgs = "org1" ∷ []; rule = "or" }

abbrev pub sdk : Sdk
sdk = record {
  event_names = "peer0";
  orders_names = "orderer0" ∷ [];
  or_rule_peer_names = "peer0" ∷ [];
  org_map = ("org1", "peer0" ∷ []) ∷ [];
}

abbrev pub empty_row : BlockchainData
empty_row = record {
  tx_id = "";
  tx_hash = "";
  block_hash = "";
  block_height = 0;
  bidbond = "";
  bid = "";
  progress = "";
  create_by = "";
  create_time = 0;
  sender = "";
  receiver = [];
  last_update_time = 0;
  last_update_by = "";
  block_data = "";
  remark = "";
  status = record { change_event = ""; pre_state = ""; curr_state = "" };
}

-- A text has one message, and an event's text leaves the factor as it is.
abbrev pub events : EventCodec
events = record {
  decode_response = λ s r. (record r { payload = s ∷ [] }, none);
  decode_row = λ s. (empty_row, none);
  -- The memory is the array of receivers, which each decoding fills anew, and a factor the number of
  -- its receivers.
  Memory = List String;
  FactorValue = ℕ;
  start = [];
  empty_factor = 0;
  decode_factor = λ s n m. (1, s ∷ [], none);
  read_factor = λ m n. record factor { receiver = take n m };
  sha3_224 = λ s. s;
  hex = λ s. s;
}

abbrev pub plain : Message
plain = record {
  factor = record factor { tx_data = "plain" };
  peersafe_data = record { keys = [] };
}

abbrev pub couch : Couch host.World
couch = record {
  Client = String;
  get_db_clients = λ w. (ok ("couch0" ∷ []), w);
  query_documents = λ client syntax w. (ok (syntax ∷ "other" ∷ []), w);
  Json = String;
  null = "";
  decode_object = λ s. (("data", s) ∷ [], none);
  marshal = λ s. (s, none);
  decode_message = λ s. if s == "other" then (plain, some "no message") else (plain, none);
}

-- A configuration of one organisation, and what holds of the network.
abbrev pub config : ClientConfig
config = record {
  orderers = "orderer0" ∷ [];
  event_peers = [];
  peers = record { name = "peer0"; host = "10.0.0.1"; org_name = "org1" } ∷ [];
}

pub accepted : (set_send_peer_order policy (ok config) empty_sdk).0 ≡ none
unfolding set_send_peer_order insert lookup
accepted = refl

pub draws : DrawsBelow network
draws = record { drawn = λ n w h. h }

whole : (block : String) → IsWholeBlock protos block
whole block = record {
  headed = λ e. cc e;
  filled = λ e. cc e;
  enveloped = λ rs e.
      let it : block ∷ [] ≡ rs = cc e in
      subst (All (IsWholeEnvelope protos)) it (
        λ tx got. record {
          channelled = λ e. cc e;
          acted = λ bytes kind actions headed typed endorser found.
              let one : tx ∷ [] ≡ actions = cc found in
              subst (All (IsWholeAction protos)) one ((λ e. cc e), tt);
        },
        tt,
      );
}

answer-HasResponse : (arg : Option String) → HasResponse protos (answer arg)
answer-HasResponse none = tt
answer-HasResponse (some txid) = λ block decoded. whole block

pub responds :
    (txid : String) (peers : List String) (w : ℕ)
    → HasResponse protos (network.query_by_qscc ("GetBlockByTxID" ∷ "ch" ∷ txid ∷ []) peers w).0
responds txid peers w = answer-HasResponse (some txid)
