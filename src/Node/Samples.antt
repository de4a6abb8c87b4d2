-- ===== src/Node/Samples.antt =====
-- A node with the identifier 10, transports that are always connected and deliver everything, and signatures
-- that begin with the signer's identifier. Whatever arrives is read as one payload, in which node 20 joins.
use rings_node.Base.{ℕ, true, String, suc, ◌==◌, Bool, false, none, some, List, [], ◌∷◌}
use rings_node.Error.{ok, err, decode, deserialize}
use rings_node.Did.{Did}
use rings_node.VNode.{VirtualNode, Codec}
use rings_node.Session.{Signers, MessageVerification, default_signer, some_ms}
use rings_node.Session.Manager.{SessionManager, KeySigner, new_manager}
use rings_node.Relay.{method_send}
use rings_node.Chord.{new_with_storage}
use rings_node.Chord.Storage.{Persistence, Cache}
use rings_node.Message.{Message, join_dht}
use rings_node.Message.Cipher.{Cipher}
use rings_node.Payload.{MessagePayload}
use rings_node.Swarm.{Swarm, Env, Rtc, connected}
use rings_node.Swarm.Transports.{get, put, delete}
use rings_node.Processor.{Client}
use rings_node.Handler.{MessageHandler}
use rings_node.Backend.Service.{Web, backend}
use rings_node.Rpc.Replies.{Json}

abbrev by : Did → List ℕ → Bool
by did [] = false
by did (x ∷ xs) = x == did

abbrev pub signers : {T : Type 0} → Signers ℕ T
signers = record {
  print_auth = λ a. some "auth";
  print = λ t. some "text";
  pack = λ s ts ttl. s;
  verify_default = λ s did sig. by did sig;
  verify_eip191 = λ s did sig. by did sig;
  verify_ed25519 = λ s did sig k. by did sig;
  recover_default = λ s sig. ok 1;
  recover_eip191 = λ s sig. ok 1;
}

abbrev pub key_signer : KeySigner ℕ ℕ
key_signer = record {
  address = λ k. k;
  pubkey_address = λ k. k;
  sign_with = λ k s. k ∷ [];
  sign_raw = λ k s. k ∷ [];
}

abbrev pub Items : Type 0
Items = List (Did × VirtualNode)

abbrev persistence : Persistence Items
persistence = record {
  get = λ s k. ok (get s k);
  put = λ s k v. ok (put s k v);
  get_all = λ s. ok s;
  remove_item = λ s k. ok (delete s k);
}

abbrev cache : Cache Items
cache = record { cache_set = put; cache_get = get }

abbrev codec : Codec
codec = record {
  hash = λ s. s;
  h160_from_str = λ s. ok 5;
  decode_string = λ s. ok s;
  to_json = λ r. ok "{}";
  from_json = λ s. err deserialize;
}

-- Encryption that puts the key in front.
abbrev pub cipher : Cipher ℕ ℕ (List ℕ)
cipher = record {
  serialize = λ t. ok t;
  deserialize = λ t. ok t;
  encrypt = λ k m. ok (k ∷ m);
  decrypt_bytes = λ k e. elim e [ [] ↦ err decode | _ ∷ m ↦ ok m ];
}

-- The next identifier, and the transports and payloads that were sent.
pub record World : Type 0 where
  pub next_id : ℕ
  pub log : List (ℕ × List ℕ)

abbrev pub verification_of : Did → MessageVerification ℕ
verification_of did = record {
  session = record {
    sig = did ∷ [];
    auth = record {
      authorizer = record { did = did; pubkey = none };
      signer = default_signer;
      ttl_ms = some_ms 1000;
      ts_ms = 5000;
      session_id = suc did;
    };
  };
  ttl_ms = 300;
  ts_ms = 5000;
  sig = suc did ∷ [];
}

abbrev pub joining : MessagePayload ℕ Message
joining = record {
  content = join_dht 20;
  tx_id = 1;
  addr = 20;
  verification = verification_of 20;
  origin_verification = verification_of 20;
  relay = record {
    method = method_send;
    path = 20 ∷ [];
    path_end_cursor = 0;
    next_hop = some 10;
    destination = 10;
  };
}

abbrev rtc : Rtc ℕ ℕ World
rtc = record {
  now = λ w. 5100;
  new_uuid = λ w. (w.next_id, record w { next_id = suc w.next_id });
  start = λ w. (ok w.next_id, record w { next_id = suc w.next_id });
  ice_connection_state = λ w t. some connected;
  close_connection = λ w t. (ok tt, w);
  register_remote_info = λ w t info. (ok 30, w);
  get_handshake_info = λ w t m k. (ok "info", w);
  wait_for_data_channel_open = λ w t. (ok tt, w);
  send_bytes = λ w t bytes. (ok tt, record w { log = (t, bytes) ∷ w.log });
  to_bincode = λ p. ok (p.tx_id ∷ []);
  from_bincode = λ bytes. ok joining;
  uuid_to_string = λ n. "id";
  uuid_from_str = λ s. some 0;
  incr = λ w d c. w;
}

abbrev pub env : Env ℕ ℕ Items Items World
env = record {
  signers = signers;
  key_signer = key_signer;
  persistence = persistence;
  local_cache = cache;
  codec = codec;
  cipher = cipher;
  rtc = rtc;
}

-- Another node that answers every offer.
abbrev pub client : Client World
client = record {
  call_answer_offer = λ w url info. (some (some "ice"), w);
  encode_did = λ d. ok "did";
}

abbrev pub world : World
world = record { next_id = 100; log = [] }

abbrev pub session_manager : SessionManager ℕ ℕ
session_manager =
    new_manager (10 ∷ []) (record (verification_of 10).session.auth { session_id = 11 }) 11

abbrev pub alone : Swarm ℕ ℕ Items Items World
alone = record {
  pending = [];
  pending_held = false;
  transports = [];
  dht = new_with_storage 10 3 [] [];
  measured = false;
  session_manager = session_manager;
  world = world;
}

-- RPC parameters that are texts.
abbrev pub json : Json (List String) String World
json = record {
  parse_strings = λ p. some p;
  parse_values = λ p. some p;
  parse_fields = λ p. none;
  parse_seeds = λ p. none;
  as_str = λ v. some v;
  as_u64 = λ v. some 5;
  as_usize = λ v. some 5;
  as_bool = λ v. some true;
  as_request = λ v. none;
  base64_decode = λ s. some (1 ∷ []);
  as_bytes = λ s. 1 ∷ [];
  encode = λ s. some s;
  decode = λ e. some e;
  serialize_request = λ r. ok [];
  receive = λ w wait. (none, w);
}

-- Services that answer every request.
abbrev pub web : Web World
web = record {
  eq_ignore_ascii_case = λ a b. true;
  url_of = λ prefix path. path;
  parse_uri = λ url. some url;
  parse_method = λ method. some method;
  parse_headers = λ headers. some headers;
  send = λ w method url headers timeout body.
      (some (record { status = 200; headers = []; bytes = body }), w);
  decode_request = λ bytes. none;
  encode_response = λ r. some [];
  gzip = λ bytes. some bytes;
  chunk_to_bincode = λ c. some c.bytes;
  new_meta = λ w. (record { id = w.next_id; ts_ms = 5100; ttl_ms = 300 }, w);
  is_utf8 = λ bytes. true;
  broadcast = λ w m. record w { log = (0, m.body) ∷ w.log };
}

abbrev pub serving : MessageHandler ℕ ℕ Items Items World
serving = record { callback = some (backend web env []); validator = none }
