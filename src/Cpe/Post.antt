-- ===== src/Cpe/Post.antt =====
-- A whole request: the calls of `answer_to_connection` that libmicrohttpd makes for a POST.
use pacemaker_cloud.Common.{
  ◌≡◌, refl, sym, subst, arith, if_true, if_false, ◌∙◌, ℕ, Bool, true, false, Option, none, some,
  List, [], ◌∷◌, String, strcmp_eq, Result, ok, fault, ◌>>=◌, All, Bool-cases, Option-cases, inl,
  inr, if◌then◌else◌,
}
use pacemaker_cloud.Common.Text.{codes, is_prefix}
use pacemaker_cloud.Cape.{deref}
use pacemaker_cloud.Cpe.Http.{
  PushParser, Httpd, post_info, Exchange, handle_event, client_errorpage, server_errorpage,
  send_page, first_call, post_chunk, post_end, later_call, answer_to_connection, not_accepted,
}

module _ (lib : Httpd) (xml : PushParser) where
  open xml use {State, fresh, parse_chunk, parse_end, well_formed, my_doc, last_error}

  -- The calls for the parts of the data and for their end.
  unfoldable pub post_rest : String → List String → Exchange State → Result (Exchange State)
  post_rest url [] x = do r ← answer_to_connection lib xml url "POST" "" x; ok r.1
  post_rest url (chunk ∷ chunks) x = do
    r ← answer_to_connection lib xml url "POST" chunk x
    post_rest url chunks r.1

  -- The pages that a POST is answered with.
  unfoldable pub post : String → List String → Result (List (ℕ × String))
  unfolding post_rest
  post url chunks = do
    r ← answer_to_connection lib xml url "POST" "" (record { con_cls = none; pages = [] })
    x ← post_rest url chunks r.1
    ok x.pages

  -- The parser after the parts of the data, if it refuses none of them.
  unfoldable pub fed : List String → State → Option State
  fed [] ctxt = some ctxt
  fed (chunk ∷ chunks) ctxt =
      let r = parse_chunk ctxt chunk in let rest = fed chunks r.1 in if r.0 then none else rest

  -- The one page that a document is answered with.
  abbrev pub verdict : State → Result (ℕ × String)
  verdict ctxt =
      if well_formed ctxt
      then (deref (my_doc ctxt) >>= λ root. handle_event root >>= λ accepted.
          ok (if accepted then (200, "") else (500, server_errorpage "unknown")))
      else (deref (last_error ctxt) >>= λ message. ok (400, client_errorpage message))

  abbrev reading : State → Exchange State
  reading ctxt = record { con_cls = some (post_info ctxt none); pages = [] }

  module _ (url : String) (served : is_prefix (codes "/pacemaker-cloud/api") (codes url) ≡ true)
      (queued : lib.queued ≡ true) where
    event_page :
        (ctxt : State) (m : Result Bool)
        → ((m >>= λ accepted. ok (
              if accepted
              then send_page lib "" 200 (reading ctxt)
              else not_accepted lib xml ctxt none (reading ctxt)))
            >>= λ r. ok r.1.pages)
          ≡ ((m >>= λ accepted.
                ok (if accepted then (200, "") else (500, server_errorpage "unknown")))
              >>= λ page. ok (page ∷ []))
    unfolding send_page
    event_page ctxt (ok true) = rw queued refl
    event_page ctxt (ok false) = rw queued refl
    event_page ctxt (fault why) = refl

    end_page :
        (ctxt : State)
        → (post_end lib xml ctxt none (reading ctxt) >>= λ r. ok r.1.pages)
          ≡ (verdict (parse_end ctxt) >>= λ page. ok (page ∷ []))
    unfolding post_end send_page
    end_page ctxt = elim (Bool-cases (well_formed (parse_end ctxt))) [
      | inl good ↦ elim (Option-cases (my_doc (parse_end ctxt))) [
        | inl gone ↦ rw (good, gone) refl
        | inr (root, doc) ↦ rw (good, doc) (event_page (parse_end ctxt) (handle_event root))
      ]
      | inr bad ↦ elim (Option-cases (last_error (parse_end ctxt))) [
        | inl gone ↦ rw (bad, gone) refl
        | inr (message, error) ↦ rw (bad, error, queued) refl
      ]
    ]

    two_parts :
        {A : Type 0} (m : Result (A × Exchange State))
        → (m >>= (λ r. ok r.1) >>= λ x. ok x.pages) ≡ (m >>= λ r. ok r.1.pages)
    two_parts (ok r) = refl
    two_parts (fault why) = refl

    rest_page :
        (chunks : List String) (ctxt : State) {ctxt' : State}
        → All (λ chunk. strcmp_eq chunk "" ≡ false) chunks
        → fed chunks ctxt ≡ some ctxt'
        → (post_rest url chunks (reading ctxt) >>= λ x. ok x.pages)
          ≡ (verdict (parse_end ctxt') >>= λ page. ok (page ∷ []))
    unfolding fed post_rest answer_to_connection later_call post_chunk
    rest_page [] ctxt {ctxt'} parts e =
        let same : ctxt ≡ ctxt' = cc in
        subst
          (λ c.
            (post_rest url [] (reading ctxt) >>= λ x. ok x.pages)
            ≡ (verdict (parse_end c) >>= λ page. ok (page ∷ [])))
          same (rw served (two_parts (post_end lib xml ctxt none (reading ctxt)) ∙ end_page ctxt))
    rest_page (chunk ∷ chunks) ctxt (here, parts) e = elim (Bool-cases (parse_chunk ctxt chunk).0) [
      | inl refused ↦ absurd (ground (arith, if_true _ none (fed chunks _) refused))
      | inr taken ↦
          rw (served, here, taken)
            (rest_page chunks (parse_chunk ctxt chunk).1 parts
              (sym (if_false _ none (fed chunks _) taken) ∙ e))
    ]

  begins :
      (url : String) (ctxt : State)
      → is_prefix (codes "/pacemaker-cloud/api") (codes url) ≡ true
      → lib.allocated ≡ true
      → fresh ≡ some ctxt
      → answer_to_connection lib xml url "POST" "" (record { con_cls = none; pages = [] })
        ≡ ok (true, reading ctxt)
  unfolding answer_to_connection first_call
  begins url ctxt served memory begun = rw (served, memory, begun) refl

  -- The server is posted a document in parts, of which libxml refuses none. The answer is exactly one
  -- page: a success for an event that is accepted, an error of the server for one that is not, and an
  -- error of the client with libxml's message for a document that is not well-formed, however the
  -- document is divided into parts. The server only ends where `handle_event` does, or where libxml
  -- has no document or no message.
  pub post-verdict :
      (url : String) (chunks : List String) (ctxt ctxt' : State)
      → is_prefix (codes "/pacemaker-cloud/api") (codes url) ≡ true
      → lib.allocated ≡ true
      → lib.queued ≡ true
      → fresh ≡ some ctxt
      → All (λ chunk. strcmp_eq chunk "" ≡ false) chunks
      → fed chunks ctxt ≡ some ctxt'
      → post url chunks ≡ (verdict (parse_end ctxt') >>= λ page. ok (page ∷ []))
  unfolding post
  post-verdict url chunks ctxt ctxt' served memory queued begun parts e =
      rw (begins url ctxt served memory begun) (rest_page url served queued chunks ctxt parts e)
