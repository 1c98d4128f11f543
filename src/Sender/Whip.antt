-- ===== src/Sender/Whip.antt =====
-- internal/sender/whip_server.go: the handler of a WHIP request and the search for its port, and the
-- same search for the RTP socket in internal/sender/run.go. What net/http reads, the JSON decoder and
-- the WebRTC library are parameters.
pub mod Replies
pub mod Listening
mod Tests
use mistlink.Base.{
  ℕ, zero, suc, ◌+◌, ◌-◌, Bool, true, false, not, ◌&&◌, List, [], ◌∷◌, Option, none, some,
  if◌then◌else◌, is_some, is_empty,
}
use mistlink.Base.Text.{codes, same_text, has_prefix}
use mistlink.Rtsp.Ports.{Bind, bound, in_use, refused}

-- A request: its method, its `Content-Type`, and its body, if it can be read.
pub record Request : Type 0 where
  pub method : List ℕ
  pub content_type : List ℕ
  pub body : Option (List ℕ)

-- What the library answers: whether codecs and interceptors are registered, a connection is made,
-- the offer is set, an answer is made and set; and the local description after that.
pub record Library : Type 0 where
  pub codecs : Bool
  pub interceptors : Bool
  pub peer_made : Bool
  pub sets_remote : List ℕ → Bool
  pub answer_made : Bool
  pub local_set : Bool
  pub local_description : Option (List ℕ)

-- The status and the body that are written, and whether a connection was made, on which the tracks
-- of OBS come.
pub record Reply : Type 0 where
  pub status : ℕ
  pub text : Option (List ℕ)
  pub peer_open : Bool

abbrev pub status_created : ℕ
status_created = 201

abbrev pub status_no_content : ℕ
status_no_content = 204

abbrev pub status_bad_request : ℕ
status_bad_request = 400

abbrev pub status_method_not_allowed : ℕ
status_method_not_allowed = 405

abbrev pub status_internal_server_error : ℕ
status_internal_server_error = 500

unfoldable pub reply : ℕ → Bool → Reply
reply status made = record { status = status; text = none; peer_open = made }

-- `offer.SDP`: the body, or what the JSON decoder finds in it.
unfoldable pub offer_of : (List ℕ → Option (List ℕ)) → Request → List ℕ → Option (List ℕ)
offer_of decode r body =
    if has_prefix r.content_type (codes "application/sdp") then some body else decode body

-- From `SetRemoteDescription` on. Without a local description the body is the JSON of a null.
unfoldable pub answer_request : Library → List ℕ → Reply
answer_request l sdp =
    if not (l.sets_remote sdp)
    then reply status_bad_request true
    else if not l.answer_made
    then reply status_internal_server_error true
    else if not l.local_set
    then reply status_internal_server_error true
    else record {
      status = status_created;
      text = if is_some l.local_description then l.local_description else some (codes "null");
      peer_open = true;
    }

unfoldable pub make_peer : Library → List ℕ → Reply
make_peer l sdp =
    if not l.codecs
    then reply status_internal_server_error false
    else if not l.interceptors
    then reply status_internal_server_error false
    else if not l.peer_made
    then reply status_internal_server_error false
    else answer_request l sdp

unfoldable pub read_offer : Library → Option (List ℕ) → Reply
read_offer l none = reply status_bad_request false
read_offer l (some sdp) = make_peer l sdp

unfoldable pub read_body : (List ℕ → Option (List ℕ)) → Library → Request → Option (List ℕ) → Reply
read_body decode l r none = reply status_bad_request false
read_body decode l r (some body) = read_offer l (offer_of decode r body)

-- The function of `/whip`.
unfoldable pub whip_handler : (List ℕ → Option (List ℕ)) → Library → Request → Reply
whip_handler decode l r =
    if same_text r.method (codes "OPTIONS")
    then reply status_no_content false
    else if not (same_text r.method (codes "POST"))
    then reply status_method_not_allowed false
    else read_body decode l r r.body

-- The port that is listened on, or the error that ends the search.
pub data Listened : Type 0 where
  listening : ℕ → Listened
  listen_error : Listened
  out_of_fuel : Listened

-- The loop of `StartWHIPServer`, and that of `Run`, on fuel.
unfoldable pub listen_loop : (ℕ → Bind) → ℕ → ℕ → Listened
listen_loop bind zero port = out_of_fuel
listen_loop bind (suc fuel) port =
    let next = listen_loop bind fuel (port + 1) in
    elim (bind port) [ bound ↦ listening port | in_use ↦ next | refused ↦ listen_error ]

-- A port has sixteen bits.
abbrev pub port_limit : ℕ
port_limit = 65536

-- One attempt for each port from the first on, and one beyond the last.
unfoldable pub listen : (ℕ → Bind) → ℕ → Listened
listen bind port = listen_loop bind (suc (port_limit - port)) port
