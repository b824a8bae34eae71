-- ===== src/UserServer/Routing.antt =====
-- internal/user_server/server.go: the requests of a client that posts a prompt and waits for its result.
use lucinda.Base.{◌≡◌, refl, Str, str_eq, lit, lookup, ℤ, [], some, true, false}
use lucinda.EventBus.{Bus}
use lucinda.Task.{Chan}
use lucinda.UserServer.{Server, ChatBody, Reply, handle_chat, waits_on, open_stream}
use lucinda.UserServer.Listening.{Request, replies, streams_from, routes, serve}

abbrev pub chat_request : ChatBody → Request
chat_request body = record {
  path = lit "/chat";
  is_post = true;
  body = body;
  plan = [];
  flushes = true;
}

abbrev pub stream_request : Str → Request
stream_request id = record {
  path = lit "/stream";
  is_post = false;
  body = record { prompt = []; owner = [] };
  plan = id;
  flushes = true;
}

pub serve-chat :
    (show : ℤ → Str) (now : ℤ) (body : ChatBody) (s : Server) (b : Bus) {st : Server × Bus}
    {r : Reply}
    → handle_chat show now true body (s, b) ≡ some (st, r)
    → serve show now (chat_request body) (s, b) ≡ some (st, replies r)
unfolding serve routes lookup str_eq
serve-chat show now body s b h = rw (h) refl

pub serve-stream :
    (show : ℤ → Str) (now : ℤ) (id : Str) (s : Server) (b : Bus) {c : Chan}
    → open_stream id true s ≡ waits_on c
    → serve show now (stream_request id) (s, b) ≡ some ((s, b), streams_from c)
unfolding serve routes lookup str_eq
serve-stream show now id s b h = rw (h) refl
