-- ===== src/Cache.antt =====
-- crates/nestforge-cache/src/lib.rs: `CacheInterceptor`. The cache store (the trait of
-- crates/nestforge-data/src/lib.rs), the JSON text of a cached response, UTF-8 and header values
-- are parameters. A request says whether its extensions hold a container and whether the store
-- resolves there.
pub mod Hits
mod Tests
use nestforge.Base.{
  ℕ, ◌≡◌, Bool, true, false, ◌&&◌, Option, none, some, String, if◌then◌else◌, Result, ok, err, leb,
  str_eq, ◌==◌,
}
use nestforge.Container.State.{◌<>◌}
use nestforge.HttpException.{HttpException, internal_server_error}

pub record CachedHttpResponse : Type 0 where
  pub status : ℕ
  pub body : String
  pub content_type : Option String

-- A response: its body is read once, and the reading may fail.
pub record Response (Header Bytes : Type 0) : Type 0 where
  pub status : ℕ
  pub content_type : Option Header
  pub other_headers : Option Header
  pub body : Result String Bytes

pub record Request : Type 0 where
  pub method : String
  pub uri : String
  pub has_container : Bool
  pub resolves_store : Bool

-- The libraries that the interceptor calls: `HeaderValue`, `String` and `serde_json`.
pub record Codec (Header Bytes : Type 0) : Type 0 where
  pub header_from_str : String → Option Header
  pub header_to_str : Header → Option String
  pub from_utf8 : Bytes → Option String
  pub into_bytes : String → Bytes
  pub to_json : CachedHttpResponse → Result String String
  pub from_json : String → Result String CachedHttpResponse

-- `CacheStore`, over a state of all that is outside.
pub record CacheStore (W : Type 0) : Type 0 where
  pub get : String → W → Result String (Option String)
  pub set : String → String → Option ℕ → W → Result String (Unit {0}) × W

pub record CachePolicy (Header Bytes : Type 0) : Type 0 where
  pub cache_key : Request → Option String
  pub ttl_seconds : Option ℕ
  pub should_cache_response : Response Header Bytes → Bool

-- The default methods of the trait, at a policy type of some name.
unfoldable pub default_policy : {Header Bytes : Type 0} → String → CachePolicy Header Bytes
default_policy type_name = record {
  cache_key = λ req. if str_eq req.method "GET" then some (type_name <> ":" <> req.uri) else none;
  ttl_seconds = none;
  should_cache_response = λ response. response.status == 200;
}

module _ {Header Bytes : Type 0} (codec : Codec Header Bytes) where
  -- `CachedHttpResponse::into_response`, with the content type `plain` that a text body has.
  unfoldable pub into_response : Option Header → CachedHttpResponse → Response Header Bytes
  into_response plain cached = record {
    status = if leb 100 cached.status && leb cached.status 999 then cached.status else 200;
    content_type = elim cached.content_type [
      | none ↦ plain
      | some text ↦ elim (codec.header_from_str text) [ none ↦ plain | some header ↦ some header ]
    ];
    other_headers = none;
    body = ok (codec.into_bytes cached.body);
  }

  abbrev pub content_type_text : Option Header → Option String
  content_type_text none = none
  content_type_text (some header) = codec.header_to_str header

-- The answer to a response whose body cannot be read, by what `HttpException` responds with.
abbrev pub failed_body : {R : Type 0} → (HttpException String → R) → R
failed_body respond = respond (internal_server_error "Failed to read response body for caching")

module _ {Header Bytes W : Type 0} (codec : Codec Header Bytes) (store : CacheStore W)
    (policy : CachePolicy Header Bytes) (plain : Option Header)
    (respond : HttpException String → Response Header Bytes) where
  abbrev pub NextFn : Type 0
  NextFn = Request → W → Response Header Bytes × W

  -- What is stored behind a response, by the end of `around`: an error of the store is logged.
  unfoldable pub store_response : String → ℕ → String → Option Header → W → W
  store_response key status body content_type w =
      elim (codec.to_json (record {
        status = status;
        body = body;
        content_type = content_type_text codec content_type;
      })) [ err e ↦ w | ok serialized ↦ (store.set key serialized policy.ttl_seconds w).1 ]

  -- `around` from the call of `next` on, at a key.
  unfoldable pub fill : String → NextFn → NextFn
  unfolding store_response
  fill key next req w =
      let (response, w1) = next req w in
      if policy.should_cache_response response
      then elim response.body [
        | err e ↦ (failed_body respond, w1)
        | ok bytes ↦ elim (codec.from_utf8 bytes) [
          | none ↦ (response, w1)
          | some body ↦ (response, store_response key response.status body response.content_type w1)
        ]
      ]
      else (response, w1)

  -- A cached response that is there and reads.
  unfoldable pub lookup : String → W → Option CachedHttpResponse
  lookup key w = elim (store.get key w) [
    | err e ↦ none
    | ok o ↦ elim o [
      | none ↦ none
      | some cached ↦ elim (codec.from_json cached) [ err e ↦ none | ok response ↦ some response ]
    ]
  ]

  unfoldable pub around : NextFn → NextFn
  unfolding into_response fill lookup
  around next req w =
      if req.has_container
      then elim (policy.cache_key req) [
        | none ↦ next req w
        | some key ↦
            if req.resolves_store
            then elim (lookup key w) [
              | some cached ↦ (into_response codec plain cached, w)
              | none ↦ fill key next req w
            ]
            else next req w
      ]
      else next req w
