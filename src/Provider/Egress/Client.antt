-- ===== src/Provider/Egress/Client.antt =====
-- The transports of internal/provider/ssrf.go and egress.go.
use waterfall.Prelude.{
  ℤ, ◌+ℤ◌, ltb_ℤ, ltb, leb, String, ◌==◌, ◌&&◌, ◌||◌, not, Bool, true, false, Option, none, some,
  List, [], ◌∷◌, ◌++◌, Dict, get, put, if◌then◌else◌,
}
use waterfall.Domain.Errors.{other, ssrf_blocked, wrapped, Result, ok, err}
use waterfall.Provider.Egress.Wire.{
  Outbound, AuthScheme, oauth2_cc, AuthDescriptor, TokenReply, Response, Leased, Texts, set_header,
  inject, token_form, token_of, ttl_of,
}

-- `KeyResolver`; one that leases is a `LeaseResolver`.
pub data Resolver (W : Type 0) : Type 0 where
  plain : (String → W → Result String × W) → Resolver W
  leasing : (String → W → Result Leased × W) → Resolver W

-- The network below the guard, the clock, and the resolver.
pub record Network (W : Type 0) : Type 0 where
  pub round_trip : Outbound → W → Result Response × W
  pub now : W → ℤ × W
  pub resolver : Resolver W

-- `oauthToken`, with its instant of expiry in nanoseconds.
pub record Token : Type 0 where
  pub token : String
  pub expiry : ℤ

-- The injector with what it did: the requests that it sent, and the leases that it reported on.
pub record Injector (W : Type 0) : Type 0 where
  pub world : W
  pub tokens : Dict Token
  pub sent : List Outbound
  pub reported : List String

module _ (tx : Texts) where
  -- `Allowed`.
  unfoldable pub allowed_host : Dict (Unit {0}) → String → Bool
  allowed_host allow host = is_there (get allow (tx.to_lower host))
    where
      is_there : Option (Unit {0}) → Bool
      is_there none = false
      is_there (some u) = true

  module _ {W : Type 0} (net : Network W) where
    -- `base.RoundTrip`.
    unfoldable pub send : Outbound → Injector W → Result Response × Injector W
    send r a =
        let (resp, w) = net.round_trip r a.world in
        (resp, record a { world = w; sent = a.sent ++ r ∷ [] })

    unfoldable pub keep_token :
        AuthDescriptor → ℤ → TokenReply → Result String → Injector W → Result String × Injector W
    unfolding ttl_of
    keep_token d now t (err e) a = (err e, a)
    keep_token d now t (ok token) a = (
      ok token,
      record a {
        tokens = put a.tokens d.pool (record { token = token; expiry = now +ℤ ttl_of t });
      },
    )

    unfoldable pub with_reply :
        AuthDescriptor → ℤ → Option TokenReply → Injector W → Result String × Injector W
    unfolding keep_token token_of
    with_reply d now none a = (err (other "oauth2-cc token exchange: bad JSON"), a)
    with_reply d now (some t) a = keep_token d now t (token_of t) a

    unfoldable pub exchanged :
        AuthDescriptor → ℤ → Result Response × Injector W → Result String × Injector W
    unfolding with_reply
    exchanged d now (err e, a) = (err e, a)
    exchanged d now (ok resp, a) =
        if ltb resp.status 200 || leb 300 resp.status
        then (err (other "oauth2-cc token exchange: status"), a)
        else with_reply d now resp.token a

    unfoldable pub exchange :
        AuthDescriptor → ℤ → Result Outbound → String → Injector W → Result String × Injector W
    unfolding exchanged send token_form
    exchange d now (err e) secret a = (err e, a)
    exchange d now (ok url) secret a =
        exchanged d now
          (send (set_header "Accept" "application/json" (token_form tx d secret url)) a)

    unfoldable pub by_cache :
        AuthDescriptor → ℤ → Option Token → String → Injector W → Result String × Injector W
    unfolding exchange
    by_cache d now none secret a = exchange d now (tx.parse_url d.token_url) secret a
    by_cache d now (some t) secret a =
        if not (t.token == "") && ltb_ℤ now t.expiry
        then (ok t.token, a)
        else exchange d now (tx.parse_url d.token_url) secret a

    -- `oauth2Token`.
    unfoldable pub oauth2_token : AuthDescriptor → String → Injector W → Result String × Injector W
    unfolding by_cache
    oauth2_token d secret a =
        let (now, w) = net.now a.world in
        if d.token_url == ""
        then (err (other "oauth2-cc: no TokenURL"), a)
        else by_cache d now (get a.tokens d.pool) secret (record a { world = w })

    unfoldable pub with_token : Outbound → Result String × Injector W → Result Outbound × Injector W
    with_token r (err e, a) = (err e, a)
    with_token r (ok token, a) = (ok (set_header "Authorization" (tx.concat "Bearer " token) r), a)

    -- `injectAuth`.
    unfoldable pub inject_auth :
        AuthScheme → Outbound → AuthDescriptor → String → Injector W → Result Outbound × Injector W
    unfolding with_token oauth2_token inject
    inject_auth oauth2_cc r d secret a = with_token r (oauth2_token d secret a)
    inject_auth scheme r d secret a = (ok (inject tx scheme d secret r), a)

    unfoldable pub reported_on :
        Leased → Result Response × Injector W → Result Response × Injector W
    reported_on l (resp, a) = (resp, record a { reported = a.reported ++ l.key_id ∷ [] })

    unfoldable pub with_injected :
        Leased → Result Outbound × Injector W → Result Response × Injector W
    unfolding send reported_on
    with_injected l (err e, a) = (err e, a)
    with_injected l (ok r, a) = reported_on l (send r a)

    unfoldable pub with_lease :
        Outbound → AuthDescriptor → Result Leased × W → Injector W → Result Response × Injector W
    unfolding with_injected inject_auth
    with_lease r d (err e, w) a = (err e, record a { world = w })
    with_lease r d (ok l, w) a =
        with_injected l (inject_auth d.scheme r d l.secret (record a { world = w }))

    unfoldable pub send_injected : Result Outbound × Injector W → Result Response × Injector W
    unfolding send
    send_injected (err e, a) = (err e, a)
    send_injected (ok r, a) = send r a

    unfoldable pub with_resolved :
        Outbound → AuthDescriptor → Result String × W → Injector W → Result Response × Injector W
    unfolding send_injected inject_auth
    with_resolved r d (err e, w) a = (err e, record a { world = w })
    with_resolved r d (ok secret, w) a =
        send_injected (inject_auth d.scheme r d secret (record a { world = w }))

    -- `roundTripLeased` for a resolver that leases, else what `RoundTrip` goes on with.
    unfoldable pub by_resolver :
        Resolver W → Outbound → AuthDescriptor → Injector W → Result Response × Injector W
    unfolding with_lease with_resolved
    by_resolver (leasing lease) r d a = with_lease r d (lease d.pool a.world) a
    by_resolver (plain secret_of) r d a = with_resolved r d (secret_of d.pool a.world) a

    -- `RoundTrip` of the injector.
    unfoldable pub round_trip :
        Outbound → Option AuthDescriptor → Injector W → Result Response × Injector W
    unfolding send by_resolver
    round_trip r none a = send r a
    round_trip r (some d) a = if d.pool == "" then send r a else by_resolver net.resolver r d a

    -- `RoundTrip` of the guard.
    unfoldable pub guarded :
        Dict (Unit {0})
        → Outbound
        → Option AuthDescriptor
        → Injector W
        → Result Response × Injector W
    unfolding round_trip allowed_host
    guarded allow r d a =
        if not (r.scheme == "https")
        then (err (wrapped "non-https scheme" ssrf_blocked), a)
        else if not (allowed_host allow r.host)
        then (err (wrapped "host not on allow-list" ssrf_blocked), a)
        else round_trip r d a
