-- ===== src/Rpc/Names.antt =====
-- src/jsonrpc/method.rs: the methods of the server, and their names.
use text.Mathlib.Text.{◌==◌ as str_eq}
use rings_node.Base.{◌≡◌, refl, String, if◌then◌else◌}
use rings_node.Error.{Result, ok, err, invalid_method}

pub data Method : Type 0 where
  connect_peer_via_http connect_with_did connect_with_seed list_peers create_offer answer_offer :
      Method
  accept_answer send_to disconnect list_pendings close_pending_transport send_simple_text : Method
  send_http_request_message send_custom_message publish_message_to_topic : Method
  fetch_messages_of_topic register_service lookup_service poll_message : Method

unfoldable pub as_str : Method → String
as_str connect_peer_via_http = "connectPeerViaHttp"
as_str connect_with_did = "connectWithDid"
as_str connect_with_seed = "connectWithSeed"
as_str list_peers = "listPeers"
as_str create_offer = "createOffer"
as_str answer_offer = "answerOffer"
as_str send_to = "sendTo"
as_str disconnect = "disconnect"
as_str accept_answer = "acceptAnswer"
as_str list_pendings = "listPendings"
as_str close_pending_transport = "closePendingTransport"
as_str send_simple_text = "sendSimpleText"
as_str send_http_request_message = "sendHttpRequestMessage"
as_str send_custom_message = "sendCustomMessage"
as_str publish_message_to_topic = "publishMessageToTopic"
as_str fetch_messages_of_topic = "fetchMessagesOfTopic"
as_str register_service = "registerService"
as_str lookup_service = "lookupService"
as_str poll_message = "pollMessage"

-- `TryFrom<&str>`
unfoldable pub of_str : String → Result Method
of_str value =
    if str_eq value "connectPeerViaHttp"
    then ok connect_peer_via_http
    else if str_eq value "connectWithDid"
    then ok connect_with_did
    else if str_eq value "connectWithSeed"
    then ok connect_with_seed
    else if str_eq value "listPeers"
    then ok list_peers
    else if str_eq value "createOffer"
    then ok create_offer
    else if str_eq value "answerOffer"
    then ok answer_offer
    else if str_eq value "sendTo"
    then ok send_to
    else if str_eq value "disconnect"
    then ok disconnect
    else if str_eq value "acceptAnswer"
    then ok accept_answer
    else if str_eq value "listPendings"
    then ok list_pendings
    else if str_eq value "closePendingTransport"
    then ok close_pending_transport
    else if str_eq value "sendSimpleText"
    then ok send_simple_text
    else if str_eq value "sendHttpRequestMessage"
    then ok send_http_request_message
    else if str_eq value "sendCustomMessage"
    then ok send_custom_message
    else if str_eq value "publishMessageToTopic"
    then ok publish_message_to_topic
    else if str_eq value "fetchMessagesOfTopic"
    then ok fetch_messages_of_topic
    else if str_eq value "registerService"
    then ok register_service
    else if str_eq value "lookupService"
    then ok lookup_service
    else if str_eq value "pollMessage"
    then ok poll_message
    else err invalid_method

-- Every method is read from its name.
of_str-as_str : (m : Method) → of_str (as_str m) ≡ ok m
unfolding of_str as_str
of_str-as_str connect_peer_via_http = refl
of_str-as_str connect_with_did = refl
of_str-as_str connect_with_seed = refl
of_str-as_str list_peers = refl
of_str-as_str create_offer = refl
of_str-as_str answer_offer = refl
of_str-as_str send_to = refl
of_str-as_str disconnect = refl
of_str-as_str accept_answer = refl
of_str-as_str list_pendings = refl
of_str-as_str close_pending_transport = refl
of_str-as_str send_simple_text = refl
of_str-as_str send_http_request_message = refl
of_str-as_str send_custom_message = refl
of_str-as_str publish_message_to_topic = refl
of_str-as_str fetch_messages_of_topic = refl
of_str-as_str register_service = refl
of_str-as_str lookup_service = refl
of_str-as_str poll_message = refl
