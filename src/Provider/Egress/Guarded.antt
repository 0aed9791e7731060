-- ===== src/Provider/Egress/Guarded.antt =====
-- Where the requests of internal/provider/egress.go go.
use waterfall.Prelude.{
  ℤ, String, ◌==◌, eq_iff, ◌≡◌, refl, sym, ap, ◌∙◌, true, not, ◌&&◌, ◌||◌, Bool-cases, Option,
  Option-cases, arith, none, some, List, [], ◌∷◌, ◌++◌, Dict, get, All, All-append, ◌⊎◌, inl, inr,
  ltb, leb, ltb_ℤ,
}
use mathlib.Core.List.{append-nil, append_assoc}
use waterfall.Domain.Errors.{Result, Result-cases, ok, err}
use waterfall.Provider.Egress.Wire.{
  Outbound, AuthScheme, api_key_header, api_key_dual_header, api_key_query, bearer, basic,
  api_key_path, oauth2_cc, AuthDescriptor, TokenReply, Response, Leased, Texts, set_header, inject,
  token_form, token_of,
}
use waterfall.Provider.Egress.Client.{
  Network, Resolver, plain, leasing, Token, Injector, send, keep_token, with_reply, exchanged,
  exchange, by_cache, oauth2_token, with_token, inject_auth, reported_on, with_injected, with_lease,
  send_injected, with_resolved, by_resolver, round_trip, allowed_host, guarded,
}

-- To the host of the other, under its scheme.
abbrev pub GoesTo : Outbound → Outbound → Type 0
GoesTo url r = (r.scheme ≡ url.scheme) × (r.host ≡ url.host)

module _ (tx : Texts) where
  inject-GoesTo :
      (scheme : AuthScheme) (d : AuthDescriptor) (secret : String) (r : Outbound)
      → GoesTo r (inject tx scheme d secret r)
  unfolding inject
  inject-GoesTo api_key_header d secret r = (refl, refl)
  inject-GoesTo api_key_dual_header d secret r = (refl, refl)
  inject-GoesTo api_key_query d secret r = (refl, refl)
  inject-GoesTo bearer d secret r = (refl, refl)
  inject-GoesTo basic d secret r = (refl, refl)
  inject-GoesTo api_key_path d secret r = elim (Bool-cases (d.path_placeholder == "")) [
    | inl q ↦ rw q (refl, refl)
    | inr q ↦ rw q (refl, refl)
  ]
  inject-GoesTo oauth2_cc d secret r = (refl, refl)

  token_form-GoesTo :
      (d : AuthDescriptor) (secret : String) (r : Outbound) → GoesTo r (token_form tx d secret r)
  unfolding token_form
  token_form-GoesTo d secret r = elim (Bool-cases (d.token_style == "body")) [
    | inl q ↦ rw q (refl, refl)
    | inr q ↦ elim (Bool-cases (d.token_style == "password")) [
      | inl k ↦ rw (q, k) (refl, refl)
      | inr k ↦ elim (Bool-cases (d.token_style == "json")) [
        | inl l ↦ rw (q, k, l) (refl, refl)
        | inr l ↦ rw (q, k, l) (refl, refl)
      ]
    ]
  ]

  module _ {W : Type 0} (net : Network W) (P : Outbound → Type 0) where
    -- What was sent in between is all of kind `P`.
    abbrev pub Sends : Injector W → List Outbound → Type 0
    Sends a sent' = (new : List Outbound) × (sent' ≡ a.sent ++ new) × All P new

    nothing : (a : Injector W) → Sends a a.sent
    nothing a = ([], sym (append-nil a.sent), tt)

    -- One after the other.
    then-Sends :
        (a b : Injector W) (sent' : List Outbound) → Sends a b.sent → Sends b sent' → Sends a sent'
    then-Sends a b sent' (new, q, h) (more, k, l) = (
      new ++ more,
      k ∙ ap (λ s. s ++ more) q ∙ append_assoc a.sent new more,
      All-append P new more h l,
    )

    send-Sends : (r : Outbound) (a : Injector W) → P r → Sends a (send tx net r a).1.sent
    unfolding send
    send-Sends r a h = (r ∷ [], refl, (h, tt))

    with_reply-sent :
        (d : AuthDescriptor) (now : ℤ) (o : Option TokenReply) (a : Injector W)
        → (with_reply tx net d now o a).1.sent ≡ a.sent
    unfolding with_reply keep_token
    with_reply-sent d now none a = refl
    with_reply-sent d now (some t) a = elim (Result-cases (token_of t)) [
      | inl (e, q) ↦ rw q refl
      | inr (s, q) ↦ rw q refl
    ]

    exchanged-sent :
        (d : AuthDescriptor) (now : ℤ) (out : Result Response × Injector W)
        → (exchanged tx net d now out).1.sent ≡ out.1.sent
    unfolding exchanged
    exchanged-sent d now (err e, a) = refl
    exchanged-sent d now (ok resp, a) =
        elim (Bool-cases (ltb resp.status 200 || leb 300 resp.status)) [
          | inl q ↦ rw q refl
          | inr q ↦ rw q (with_reply-sent d now resp.token a)
        ]

    exchange-Sends :
        (d : AuthDescriptor) (now : ℤ) (url : Result Outbound) (secret : String) (a : Injector W)
        → ((u r : Outbound) → url ≡ ok u → GoesTo u r → P r)
        → Sends a (exchange tx net d now url secret a).1.sent
    unfolding exchange
    exchange-Sends d now (err e) secret a h = nothing a
    exchange-Sends d now (ok u) secret a h =
        let r = set_header "Accept" "application/json" (token_form tx d secret u) in
        let (new, q, k) = send-Sends r a (h u r refl (token_form-GoesTo d secret u)) in
        (new, exchanged-sent d now (send tx net r a) ∙ q, k)

    by_cache-Sends :
        (d : AuthDescriptor) (now : ℤ) (o : Option Token) (secret : String) (a : Injector W)
        → ((u r : Outbound) → tx.parse_url d.token_url ≡ ok u → GoesTo u r → P r)
        → Sends a (by_cache tx net d now o secret a).1.sent
    unfolding by_cache
    by_cache-Sends d now none secret a h =
        exchange-Sends d now (tx.parse_url d.token_url) secret a h
    by_cache-Sends d now (some t) secret a h =
        elim (Bool-cases (not (t.token == "") && ltb_ℤ now t.expiry)) [
          | inl q ↦ rw q (nothing a)
          | inr q ↦ rw q (exchange-Sends d now (tx.parse_url d.token_url) secret a h)
        ]

    oauth2_token-Sends :
        (d : AuthDescriptor) (secret : String) (a : Injector W)
        → ((u r : Outbound) → tx.parse_url d.token_url ≡ ok u → GoesTo u r → P r)
        → Sends a (oauth2_token tx net d secret a).1.sent
    unfolding oauth2_token
    oauth2_token-Sends d secret a h = elim (Bool-cases (d.token_url == "")) [
      | inl q ↦ rw q (nothing a)
      | inr q ↦ rw q (
          by_cache-Sends d (net.now a.world).0 (get a.tokens d.pool) secret
            (record a { world = (net.now a.world).1 }) h)
    ]

    -- The request that leaves, if any, goes where it was to go.
    abbrev IsAimed : Outbound → Result Outbound → Type 0
    IsAimed r (err e) = Unit
    IsAimed r (ok r') = GoesTo r r'

    inject_auth-Sends :
        (s : AuthScheme) (r : Outbound) (d : AuthDescriptor) (secret : String) (a : Injector W)
        → (s ≡ oauth2_cc → (u r' : Outbound) → tx.parse_url d.token_url ≡ ok u → GoesTo u r' → P r')
        → Sends a (inject_auth tx net s r d secret a).1.sent
          × IsAimed r (inject_auth tx net s r d secret a).0
    unfolding inject_auth with_token
    inject_auth-Sends oauth2_cc r d secret a h =
        with_token-Sends r (oauth2_token tx net d secret a) (oauth2_token-Sends d secret a (h refl))
      where
        with_token-Sends :
            (r : Outbound) (out : Result String × Injector W)
            → Sends a out.1.sent
            → Sends a (with_token tx net r out).1.sent × IsAimed r (with_token tx net r out).0
        with_token-Sends r (err e, b) k = (k, tt)
        with_token-Sends r (ok token, b) k = (k, (refl, refl))
    inject_auth-Sends api_key_header r d secret a h =
        (nothing a, inject-GoesTo api_key_header d secret r)
    inject_auth-Sends api_key_dual_header r d secret a h =
        (nothing a, inject-GoesTo api_key_dual_header d secret r)
    inject_auth-Sends api_key_query r d secret a h =
        (nothing a, inject-GoesTo api_key_query d secret r)
    inject_auth-Sends bearer r d secret a h = (nothing a, inject-GoesTo bearer d secret r)
    inject_auth-Sends basic r d secret a h = (nothing a, inject-GoesTo basic d secret r)
    inject_auth-Sends api_key_path r d secret a h =
        (nothing a, inject-GoesTo api_key_path d secret r)

    with_injected-Sends :
        (r : Outbound) (l : Leased) (a : Injector W) (out : Result Outbound × Injector W)
        → ((r' : Outbound) → GoesTo r r' → P r')
        → Sends a out.1.sent × IsAimed r out.0
        → Sends a (with_injected tx net l out).1.sent
    unfolding with_injected reported_on
    with_injected-Sends r l a (err e, b) fine (k, aim) = k
    with_injected-Sends r l a (ok r', b) fine (k, aim) =
        then-Sends a b _ k (send-Sends r' b (fine r' aim))

    module _ (r : Outbound) (fine : (r' : Outbound) → GoesTo r r' → P r') where
      with_lease-Sends :
          (d : AuthDescriptor) (a : Injector W) (out : Result Leased × W)
          → (d.scheme ≡ oauth2_cc
              → (u r' : Outbound) → tx.parse_url d.token_url ≡ ok u
              → GoesTo u r'
              → P r')
          → Sends a (with_lease tx net r d out a).1.sent
      unfolding with_lease
      with_lease-Sends d a (err e, w) h = nothing a
      with_lease-Sends d a (ok l, w) h =
          with_injected-Sends r l a
            (inject_auth tx net d.scheme r d l.secret (record a { world = w })) fine
            (inject_auth-Sends d.scheme r d l.secret (record a { world = w }) h)

      send_injected-Sends :
          (a : Injector W) (out : Result Outbound × Injector W)
          → Sends a out.1.sent × IsAimed r out.0
          → Sends a (send_injected tx net out).1.sent
      unfolding send_injected
      send_injected-Sends a (err e, b) (k, aim) = k
      send_injected-Sends a (ok r', b) (k, aim) = then-Sends a b _ k (send-Sends r' b (fine r' aim))

      with_resolved-Sends :
          (d : AuthDescriptor) (a : Injector W) (out : Result String × W)
          → (d.scheme ≡ oauth2_cc
              → (u r' : Outbound) → tx.parse_url d.token_url ≡ ok u
              → GoesTo u r'
              → P r')
          → Sends a (with_resolved tx net r d out a).1.sent
      unfolding with_resolved
      with_resolved-Sends d a (err e, w) h = nothing a
      with_resolved-Sends d a (ok secret, w) h =
          send_injected-Sends a (inject_auth tx net d.scheme r d secret (record a { world = w }))
            (inject_auth-Sends d.scheme r d secret (record a { world = w }) h)

      by_resolver-Sends :
          (v : Resolver W) (d : AuthDescriptor) (a : Injector W)
          → (d.scheme ≡ oauth2_cc
              → (u r' : Outbound) → tx.parse_url d.token_url ≡ ok u
              → GoesTo u r'
              → P r')
          → Sends a (by_resolver tx net v r d a).1.sent
      unfolding by_resolver
      by_resolver-Sends (plain secret_of) d a h =
          with_resolved-Sends d a (secret_of d.pool a.world) h
      by_resolver-Sends (leasing lease) d a h = with_lease-Sends d a (lease d.pool a.world) h

      round_trip-Sends :
          (o : Option AuthDescriptor) (a : Injector W)
          → ((d : AuthDescriptor)
              → o ≡ some d
              → d.scheme ≡ oauth2_cc
              → (u r' : Outbound) → tx.parse_url d.token_url ≡ ok u
              → GoesTo u r'
              → P r')
          → Sends a (round_trip tx net r o a).1.sent
      unfolding round_trip
      round_trip-Sends none a h = send-Sends r a (fine r (refl, refl))
      round_trip-Sends (some d) a h = elim (Bool-cases (d.pool == "")) [
        | inl q ↦ rw q (send-Sends r a (fine r (refl, refl)))
        | inr q ↦ rw q (by_resolver-Sends net.resolver d a (h d refl))
      ]

  allowed_host_lem :
      (allow : Dict (Unit {0})) (host : String)
      → allowed_host tx allow host ≡ true
      → get allow (tx.to_lower host) ≡ some tt
  unfolding allowed_host
  allowed_host_lem allow host h = elim (Option-cases (get allow (tx.to_lower host))) [
    | inl q ↦ absurd (ground (arith, rw q at h))
    | inr (tt, q) ↦ q
  ]

  -- To an https host whose name in lower case is on the allow-list; or the exchange for a token, at the URL that the
  -- descriptor names, which neither test has seen.
  abbrev pub IsPermitted : Dict (Unit {0}) → Option AuthDescriptor → Outbound → Type 0
  IsPermitted allow o r =
      ((r.scheme ≡ "https") × (get allow (tx.to_lower r.host) ≡ some tt))
      ⊎ ((d : AuthDescriptor) × (o ≡ some d)
          × (d.scheme ≡ oauth2_cc)
          × ((u : Outbound) × (tx.parse_url d.token_url ≡ ok u) × GoesTo u r))

  -- Every request that leaves through the guard is permitted.
  pub guarded-IsPermitted :
      {W : Type 0} (net : Network W) (allow : Dict (Unit {0})) (r : Outbound)
      (o : Option AuthDescriptor) (a : Injector W)
      → (new : List Outbound) × ((guarded tx net allow r o a).1.sent ≡ a.sent ++ new)
        × All (IsPermitted allow o) new
  unfolding guarded
  guarded-IsPermitted net allow r o a = elim (Bool-cases (r.scheme == "https")) [
    | inr q ↦ rw q (nothing net (IsPermitted allow o) a)
    | inl q ↦ elim (Bool-cases (allowed_host tx allow r.host)) [
      | inr k ↦ rw (q, k) (nothing net (IsPermitted allow o) a)
      | inl k ↦
          rw (q, k)
            (round_trip-Sends net (IsPermitted allow o) r
              (λ r' (s, t). inl (
                s ∙ (eq_iff r.scheme "https").0 q,
                ap (λ host. get allow (tx.to_lower host)) t ∙ allowed_host_lem allow r.host k,
              ))
              o a (λ d e c u r' p g. inr (d, e, c, (u, p, g))))
    ]
  ]
