-- ===== src/Cache/Hits.antt =====
-- What the interceptor answers once it has stored a response.
use nestforge.Base.{
  ℕ, ◌≡◌, refl, ap, sym, subst, ◌∙◌, true, ◌&&◌, Option, none, some, String, ok, err, leb, ◌⊎◌, inl,
  inr, Bool-cases, Result-cases, Option-cases,
}
use nestforge.HttpException.{HttpException}
use nestforge.Cache.{
  failed_body, content_type_text, CachedHttpResponse, Response, Request, Codec, CacheStore,
  CachePolicy, into_response, NextFn, store_response, fill, lookup, around,
}

-- What the libraries promise: a text that was written reads as what it was.
pub record IsCodec {Header Bytes : Type 0} (codec : Codec Header Bytes) : Type 0 where
  pub from_json-to_json :
      (r : CachedHttpResponse) (s : String) → codec.to_json r ≡ ok s → codec.from_json s ≡ ok r
  pub from_str-to_str :
      (h : Header) (s : String) → codec.header_to_str h ≡ some s → codec.header_from_str s ≡ some h
  pub into_bytes-from_utf8 :
      (b : Bytes) (s : String) → codec.from_utf8 b ≡ some s → codec.into_bytes s ≡ b

-- What a store promises of a value that has not expired.
pub record IsStore {W : Type 0} (store : CacheStore W) : Type 0 where
  pub get-set :
      (key value : String) (ttl : Option ℕ) (w : W)
      → (store.set key value ttl w).0 ≡ ok tt
      → store.get key (store.set key value ttl w).1 ≡ ok (some value)

module _ {Header Bytes W : Type 0} (codec : Codec Header Bytes) (store : CacheStore W)
    (policy : CachePolicy Header Bytes) (plain : Option Header)
    (respond : HttpException String → Response Header Bytes) where
  -- The content type of an answer from the cache: one that is no visible text is lost, and the answer
  -- has that of a text.
  abbrev pub replayed_type : Option Header → Option Header
  replayed_type none = plain
  replayed_type (some header) = elim (codec.header_to_str header) [
    | none ↦ plain
    | some text ↦ some header
  ]

  replayed_binary :
      (header : Header) → codec.header_to_str header ≡ none → replayed_type (some header) ≡ plain
  replayed_binary header binary = rw (binary, replayed_type) refl

  replayed_text :
      (header : Header) (text : String)
      → codec.header_to_str header ≡ some text
      → replayed_type (some header) ≡ some header
  replayed_text header text spelled = rw (spelled, replayed_type) refl

  -- A response as it is answered from the cache.
  abbrev pub replayed : Response Header Bytes → Response Header Bytes
  replayed response = record response {
    content_type = replayed_type response.content_type;
    other_headers = none;
  }

  -- A response to a request, and all that is needed for it to be stored: the request has a key and no
  -- entry, the policy allows it, its body is read and is text, it serializes, and the store takes it.
  pub record Stored (next : NextFn codec store policy plain respond) (req : Request) (w : W)
      : Type 0 where
    pub key : String
    pub bytes : Bytes
    pub body : String
    pub serialized : String
    pub keyed : policy.cache_key req ≡ some key
    pub missed : lookup codec store policy plain respond key w ≡ none
    pub cacheable : policy.should_cache_response (next req w).0 ≡ true
    pub valid : (leb 100 (next req w).0.status && leb (next req w).0.status 999) ≡ true
    pub read : (next req w).0.body ≡ ok bytes
    pub utf8 : codec.from_utf8 bytes ≡ some body
    pub written :
        codec.to_json (record {
          status = (next req w).0.status;
          body = body;
          content_type = content_type_text codec (next req w).0.content_type;
        })
        ≡ ok serialized
    pub kept : (store.set key serialized policy.ttl_seconds (next req w).1).0 ≡ ok tt

  module _ (next : NextFn codec store policy plain respond) (req : Request) (w : W)
      (found : req.has_container ≡ true) (resolved : req.resolves_store ≡ true)
      (st : Stored next req w) where
    first :
        around codec store policy plain respond next req w
        ≡ ((next req w).0, (store.set st.key st.serialized policy.ttl_seconds (next req w).1).1)
    unfolding around fill store_response
    first = simp (
      found, st.keyed, resolved, st.missed, st.cacheable, st.read, st.utf8, st.written, around,
      fill, store_response,
    )

    looked_up :
        IsCodec codec
        → IsStore store
        → lookup codec store policy plain respond st.key
            (store.set st.key st.serialized policy.ttl_seconds (next req w).1).1
          ≡ some (record {
            status = (next req w).0.status;
            body = st.body;
            content_type = content_type_text codec (next req w).0.content_type;
          })
    unfolding lookup
    looked_up lawful stores =
        rw
          (
            stores.get-set st.key st.serialized policy.ttl_seconds (next req w).1 st.kept,
            lawful.from_json-to_json _ st.serialized st.written,
            lookup,
          )
          refl

    hit :
        (w' : W) (cached : CachedHttpResponse)
        → lookup codec store policy plain respond st.key w' ≡ some cached
        → around codec store policy plain respond next req w'
          ≡ (into_response codec plain cached, w')
    unfolding around
    hit w' cached h = simp (found, st.keyed, resolved, h, around)

    answered :
        IsCodec codec
        → into_response codec plain (record {
          status = (next req w).0.status;
          body = st.body;
          content_type = content_type_text codec (next req w).0.content_type;
        })
          ≡ replayed (next req w).0
    unfolding into_response
    answered lawful = go (next req w).0.content_type refl
      where
        go :
            (o : Option Header)
            → (next req w).0.content_type ≡ o
            → into_response codec plain (record {
              status = (next req w).0.status;
              body = st.body;
              content_type = content_type_text codec (next req w).0.content_type;
            })
              ≡ replayed (next req w).0
        go none e =
            simp (st.valid, lawful.into_bytes-from_utf8 st.bytes st.body st.utf8, e, st.read)
        go (some header) e = elim (Option-cases (codec.header_to_str header)) [
          | inl binary ↦ simp (
            st.valid,
            lawful.into_bytes-from_utf8 st.bytes st.body st.utf8,
            e,
            binary,
            replayed_binary header binary,
            st.read,
          )
          | inr (text, spelled) ↦ simp (
            st.valid,
            lawful.into_bytes-from_utf8 st.bytes st.body st.utf8,
            e,
            spelled,
            replayed_text header text spelled,
            lawful.from_str-to_str header text spelled,
            st.read,
          )
        ]

    -- A response that has been stored is what the same request is answered again, until the entry
    -- expires: with the same status and body, with the same content type if it has one that is visible
    -- text and else with that of a text, and with none of its other headers; the handler does not run
    -- again, and the first answer was the handler's own.
    pub around_again :
        IsCodec codec
        → IsStore store
        → let w2 = (around codec store policy plain respond next req w).1 in
          ((around codec store policy plain respond next req w).0 ≡ (next req w).0)
          × (around codec store policy plain respond next req w2 ≡ (replayed (next req w).0, w2))
    around_again lawful stores =
        let again =
          hit (store.set st.key st.serialized policy.ttl_seconds (next req w).1).1 _
            (looked_up lawful stores) in
        (
          ap (λ (p : Response Header Bytes × W). p.0) first,
          subst
              (λ (v : W).
                around codec store policy plain respond next req v ≡ (replayed (next req w).0, v))
              (sym (ap (λ (p : Response Header Bytes × W). p.1) first))
              (again
                ∙ ap
                    (λ (r : Response Header Bytes).
                      (r, (store.set st.key st.serialized policy.ttl_seconds (next req w).1).1))
                    (answered lawful)),
        )

  module _ (next : NextFn codec store policy plain respond) (req : Request) (w : W) where
    fill-answer :
        (key : String)
        → ((fill codec store policy plain respond key next req w).0 ≡ (next req w).0)
          ⊎ ((e : String) × ((next req w).0.body ≡ err e)
              × ((fill codec store policy plain respond key next req w).0 ≡ failed_body respond))
    unfolding fill
    fill-answer key = elim (Bool-cases (policy.should_cache_response (next req w).0)) [
      | inr passed ↦ inl (simp (passed, fill))
      | inl cacheable ↦ elim (Result-cases (next req w).0.body) [
        | inr (e, unread) ↦ inr (e, unread, simp (cacheable, unread, fill))
        | inl (bytes, read) ↦ elim (Option-cases (codec.from_utf8 bytes)) [
          | inl binary ↦ inl (simp (cacheable, read, binary, fill))
          | inr (body, text) ↦ inl (simp (cacheable, read, text, fill))
        ]
      ]
    ]

    -- Whatever the cache store does, a request is answered from the cache, with nothing changed outside,
    -- or as the handler answers it; only a body that cannot be read makes another answer. Failures
    -- of the store and entries that do not parse are never seen.
    pub around-answer :
        ((cached : CachedHttpResponse) × (around codec store policy plain respond next req w
            ≡ (into_response codec plain cached, w)))
        ⊎ (((around codec store policy plain respond next req w).0 ≡ (next req w).0)
            ⊎ ((e : String) × ((next req w).0.body ≡ err e)
                × ((around codec store policy plain respond next req w).0 ≡ failed_body respond)))
    unfolding around
    around-answer = elim (Bool-cases req.has_container) [
      | inr bare ↦ inr (inl (simp (bare, around)))
      | inl found ↦ elim (Option-cases (policy.cache_key req)) [
        | inl unkeyed ↦ inr (inl (simp (found, unkeyed, around)))
        | inr (key, keyed) ↦ elim (Bool-cases req.resolves_store) [
          | inr missing ↦ inr (inl (simp (found, keyed, missing, around)))
          | inl resolved ↦ elim (Option-cases (lookup codec store policy plain respond key w)) [
            | inr (cached, hit) ↦ inl (cached, simp (found, keyed, resolved, hit, around))
            | inl missed ↦
                let filled : around codec store policy plain respond next req w
                    ≡ fill codec store policy plain respond key next req w =
                  simp (found, keyed, resolved, missed, around) in
                inr (rw filled (fill-answer key))
          ]
        ]
      ]
    ]
