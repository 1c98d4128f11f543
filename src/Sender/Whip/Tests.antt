-- ===== src/Sender/Whip/Tests.antt =====
-- A client of OBS posts an offer.
use mistlink.Base.{◌≡◌, true, not, ◌&&◌, some, ◌==◌, is_some, leb}
use mistlink.Base.Text.{codes, same_text}
use mistlink.Sender.Whip.{Request, Library, whip_handler}
use mistlink.Sender.Whip.Replies.{is_post, accepts, makes, offered_by, whip_handler_lem}

abbrev request : Request
request = record {
  method = codes "POST";
  content_type = codes "application/sdp";
  body = some (codes "v=0");
}

abbrev library : Library
library = record {
  codecs = true;
  interceptors = true;
  peer_made = true;
  sets_remote = λ sdp. true;
  answer_made = true;
  local_set = true;
  local_description = some (codes "v=0");
}

whip_handler_lem_example :
    let answer = whip_handler some library request in
    let created = is_post request && accepts library (offered_by some request) in
    ((answer.status == 201) ≡ created)
    × (answer.peer_open ≡ (is_post request && is_some (offered_by some request) && makes library))
    × (leb 400 answer.status ≡ (not (same_text request.method (codes "OPTIONS")) && not created))
whip_handler_lem_example = whip_handler_lem some library request
