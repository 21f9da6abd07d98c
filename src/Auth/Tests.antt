-- ===== src/Auth/Tests.antt =====
-- Instances of the theorems on newt_auth.c.
use newt_esp.Base.{
  ℕ, ◌≤◌, ◌<◌, ◌≡◌, refl, ◌⊎◌, true, false, List, [], ◌∷◌, none, some, arith, codes, bytes_eq,
  strip_slashes,
}
use newt_esp.Extern.Sample.{str, obj, end, member, sample_json}
use newt_esp.Extern.{EspErr, esp_ok, err_invalid_size, Cjson}
use newt_esp.Auth.Complete.{content, perform_events_complete}
use newt_esp.Auth.Growth.{IsSound, Appended, double_until_enough, resp_append-Appended}
use newt_esp.Auth.Request.{HttpEnv, do_post, build_url, copy_field}
use newt_esp.Auth.Response.{
  Response, no_response, resp_append, HttpEvent, on_data, other_event, http_event_cb,
  perform_events, double_until,
}
use newt_esp.Auth.Fetch.{Answers, get_token-Answers}
use newt_esp.Auth.Token.{Fetched, get_token, register_with_provisioning_key, accepts_token, zeros}

abbrev half_full : Response
half_full = record { buf = some (codes "abc"); len = 3; cap = 1024; oom = false }

resp_append-Appended_example :
    (out : Response × EspErr) × (resp_append true half_full (codes "def") ≡ some out)
    × Appended half_full (codes "def") out.0 out.1
resp_append-Appended_example = resp_append-Appended true half_full (codes "def") (omega arith)

abbrev answer : List HttpEvent
answer = other_event ∷ on_data true (codes "{\"data\":") ∷ on_data true (codes "1}") ∷ []

perform_events_complete_example :
    (r : Response) × (perform_events answer no_response ≡ some r)
    × IsSound r
    × ((r.oom ≡ true) ⊎ ((r.oom ≡ false) × (content r ≡ codes "{\"data\":1}")))
perform_events_complete_example = perform_events_complete answer

double_until_enough_example :
    (c : ℕ) × (double_until 14 5000 1024 ≡ some c) × (5000 ≤ c) × ((c ≡ 1024) ⊎ (c < 10000))
double_until_enough_example = double_until_enough 13 5000 1024 (omega arith)

abbrev http : HttpEnv
http = record {
  client = true;
  events = on_data true (codes "doc") ∷ [];
  performed = esp_ok;
  status = 200;
}

abbrev pub json : Cjson
json = sample_json (
    (
      codes "doc",
      obj (member (codes "data") (obj (member (codes "token") (str (codes "tok")) end)) end),
    )
    ∷ [])

get_token_run :
    get_token json http true
      (some (codes "https://a.b"))
      (some (codes "id"))
      (some (codes "s3cret"))
      true
      512
    ≡ some (record { ret = esp_ok; written = codes "tok" ∷ []; freed = zeros 2 ∷ zeros 3 ∷ [] })
unfolding get_token do_post build_url copy_field perform_events http_event_cb resp_append
    double_until bytes_eq strip_slashes
get_token_run = refl

abbrev pub pieces : HttpEnv
pieces = record http {
  events = other_event ∷ on_data true (codes "d") ∷ on_data true (codes "oc") ∷ [];
}

abbrev pub token_object : json.Item
token_object = obj (member (codes "token") (str (codes "tok")) end)

pub token-Answers : Answers json pieces accepts_token token_object
unfolding do_post perform_events http_event_cb resp_append double_until bytes_eq
token-Answers = record {
  root = obj (member (codes "data") token_object end);
  client = refl;
  performed = refl;
  able = ground arith;
  fits = omega arith;
  accepted = refl;
  some_text = λ e. cc;
  parsed = refl;
  has_data = refl;
  object = refl;
}

get_token-Answers_example :
    (f : Fetched) × (get_token json pieces true
        (some (codes "https://a.b"))
        (some (codes "id"))
        (some (codes "s3cret"))
        true
        512
      ≡ some f)
    × (f.ret ≡ esp_ok)
    × (f.written ≡ codes "tok" ∷ [])
unfolding bytes_eq
get_token-Answers_example =
    get_token-Answers json pieces (codes "https://a.b") (codes "id") (codes "s3cret") (codes "{}")
      (codes "tok") 512 token_object refl token-Answers refl (omega arith)

abbrev site : Cjson
site = sample_json (
    (
      codes "doc",
      obj (
          member (codes "data")
            (obj (
              member (codes "newtId") (str (codes "abc"))
                (member (codes "secret") (str (codes "0123456789")) end)))
            end),
    )
    ∷ [])

register_partial_run :
    register_with_provisioning_key site http true
      (some (codes "https://a.b"))
      (some (codes "key"))
      none
      true
      64
      true
      8
    ≡ some (record {
      ret = err_invalid_size;
      written = codes "abc" ∷ [];
      freed = zeros 2 ∷ zeros 3 ∷ [];
    })
unfolding register_with_provisioning_key do_post build_url copy_field perform_events http_event_cb
    resp_append double_until bytes_eq strip_slashes
register_partial_run = refl
