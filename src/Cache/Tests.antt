-- ===== src/Cache/Tests.antt =====
-- The theorems on the response cache at concrete inputs: a store of one entry, JSON that is a
-- status, a body and a content type, and bodies that are texts.
use nestforge.Base.{
  ℕ, ◌+◌, ◌≡◌, refl, Bool, true, false, Option, none, some, String, Result, ok, err, str_eq,
  if◌then◌else◌, eq_refl, eq_iff, sym, arith, ◌&&◌, ◌==◌,
}
use nestforge.HttpException.{HttpException}
use nestforge.Cache.{
  CachedHttpResponse, Response, Request, Codec, CacheStore, CachePolicy, default_policy, lookup,
  around,
}
use nestforge.Cache.Hits.{IsCodec, IsStore, Stored, replayed, around_again}

-- The one response that the tests write, as JSON "J".
abbrev page : CachedHttpResponse
page = record { status = 200; body = "hello"; content_type = some "text/plain" }

abbrev page_type : Option String → Bool
page_type none = false
page_type (some t) = str_eq t "text/plain"

abbrev written : CachedHttpResponse → Result String String
written r =
    if page_type r.content_type && (str_eq r.body "hello" && (r.status == 200))
    then ok "J"
    else err "not a page"

abbrev codec : Codec String String
codec = record {
  header_from_str = λ s. some s;
  header_to_str = λ h. some h;
  from_utf8 = λ b. some b;
  into_bytes = λ s. s;
  to_json = written;
  from_json = λ s. if str_eq s "J" then ok page else err "not JSON";
}

page_only : (r : CachedHttpResponse) (s : String) → written r ≡ ok s → (r ≡ page) × (s ≡ "J")
page_only r s h = go r.content_type refl
  where
    go : (o : Option String) → r.content_type ≡ o → (r ≡ page) × (s ≡ "J")
    go none e = cc (rw e at h)
    go (some t) e =
        let h' = rw e at h in ground (arith, eq_iff t "text/plain", eq_iff r.body "hello")

codec-IsCodec : IsCodec codec
codec-IsCodec = record {
  from_json-to_json = λ r s h. let (a, b) = page_only r s h in rw (b, a) refl;
  from_str-to_str = λ h s e. sym e;
  into_bytes-from_utf8 = λ b s e. ground arith;
}

-- What is outside: the entry of the store, and how often the handler has run.
record World : Type 0 where
  entry : Option (String × String)
  runs : ℕ

abbrev single : CacheStore World
single = record {
  get = λ key w. elim w.entry [
    | none ↦ ok none
    | some (k, v) ↦ if str_eq k key then ok (some v) else ok none
  ];
  set = λ key value ttl w. (ok tt, record w { entry = some (key, value) });
}

single-IsStore : IsStore single
single-IsStore = record { get-set = λ key value ttl w h. rw (eq_refl key) refl }

abbrev broken : HttpException String → Response String String
broken e = record {
  status = e.status;
  content_type = none;
  other_headers = none;
  body = ok e.message;
}

abbrev serve : Request → World → Response String String × World
serve req w = (
  record {
    status = 200;
    content_type = some "text/plain";
    other_headers = some "x-request-id: 1";
    body = ok "hello";
  },
  record w { runs = w.runs + 1 },
)

abbrev request : Request
request = record { method = "GET"; uri = "/"; has_container = true; resolves_store = true }

abbrev start : World
start = record { entry = none; runs = 0 }

abbrev policy : CachePolicy String String
policy = default_policy "Policy"

serve-Stored : Stored codec single policy none broken serve request start
unfolding default_policy lookup
serve-Stored = record {
  key = "Policy:/";
  bytes = "hello";
  body = "hello";
  serialized = "J";
  keyed = refl;
  missed = refl;
  cacheable = refl;
  valid = refl;
  read = refl;
  utf8 = refl;
  written = refl;
  kept = refl;
}

around_again_example :
    let w2 = (around codec single policy none broken serve request start).1 in
    ((around codec single policy none broken serve request start).0 ≡ (serve request start).0)
    × (around codec single policy none broken serve request w2
        ≡ (replayed codec single policy none broken (serve request start).0, w2))
around_again_example =
    around_again codec single policy none broken serve request start refl refl serve-Stored
      codec-IsCodec single-IsStore
