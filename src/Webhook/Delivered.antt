-- ===== src/Webhook/Delivered.antt =====
-- What the deliveries of internal/webhook/webhook.go come to.
use waterfall.Prelude.{
  ℕ, zero, suc, ◌≤◌, ◌<◌, String, ◌≡◌, refl, sym, ap, ◌∙◌, Option, none, some, Option-cases, List,
  [], ◌∷◌, ◌++◌, get, All, ◌⊎◌, inl, inr, arith,
}
use mathlib.Core.List.{append-nil, append_assoc}
use waterfall.Domain.Errors.{GoError, Result, ok, err}
use waterfall.Job.Types.{Job}
use waterfall.Webhook.{
  Config, Post, PostLib, Client, Sender, Mail, the_post, build_payload, settled, error_of, pause,
  post_loop, deliver,
}

-- The answers that a sender gets who may post so often, and what it then returns.
pub data Course : ℕ → List (Result ℕ) → Result (Unit {0}) → Type 0 where
  given_up : (e : GoError) → Course zero [] (err e)
  delivered : (n code : ℕ) → code < 400 → Course (suc n) (ok code ∷ []) (ok tt)
  refused :
      (n code : ℕ) (e : GoError)
      → 400 ≤ code
      → code < 500
      → ¬ (code ≡ 429)
      → Course (suc n) (ok code ∷ []) (err e)
  failed :
      (n : ℕ) (e : GoError) (later : List (Result ℕ)) (r : Result (Unit {0}))
      → Course n later r
      → Course (suc n) (err e ∷ later) r
  retried :
      (n code : ℕ) (later : List (Result ℕ)) (r : Result (Unit {0}))
      → (code ≡ 429) ⊎ (500 ≤ code)
      → Course n later r
      → Course (suc n) (ok code ∷ later) r

abbrev pub answers : List (Post × Result ℕ) → List (Result ℕ)
answers [] = []
answers ((p, reply) ∷ sent) = reply ∷ answers sent

settled-Course :
    (n : ℕ) (reply : Result ℕ) (r : Result (Unit {0}))
    → settled reply ≡ some r
    → Course (suc n) (reply ∷ []) r
unfolding settled
settled-Course n (err e) r h = absurd (ground (arith, h))
settled-Course n (ok code) (ok u) h = delivered n code (ground (arith, h))
settled-Course n (ok code) (err e) h =
    refused n code e (ground (arith, h)) (ground (arith, h)) (λ q. ground (arith, h, q))

settled_none :
    (n : ℕ) (reply : Result ℕ) (later : List (Result ℕ)) (r : Result (Unit {0}))
    → settled reply ≡ none
    → Course n later r
    → Course (suc n) (reply ∷ later) r
unfolding settled
settled_none n (err e) later r h c = failed n e later r c
settled_none n (ok code) later r h c = retried n code later r (again h) c
  where
    again : settled (ok code) ≡ none → (code ≡ 429) ⊎ (500 ≤ code)
    again h = ground (arith, h)

module _ {C W : Type 0} (lib : PostLib C) (client : Client W) (s : Sender) where
  -- Exchanges all of one post, whose answers lead to the result.
  pub record IsDelivery (p : Post) (n : ℕ) (sent : List (Post × Result ℕ))
      (out : Result (Unit {0}) × Mail W) : Type 0 where
    pub new : List (Post × Result ℕ)
    pub appended : out.1.sent ≡ sent ++ new
    pub same : All (λ x. x.0 ≡ p) new
    pub ends : Course n (answers new) out.0

  pause-sent : (n attempt : ℕ) (m : Mail W) → (pause lib client s n attempt m).sent ≡ m.sent
  unfolding pause
  pause-sent zero attempt m = refl
  pause-sent (suc n) attempt m = refl

  module _ (host : String) (p : Post) where
    loop-IsDelivery :
        (n attempt : ℕ) (last : Option GoError) (m : Mail W)
        → (0 < n) ⊎ ((e : GoError) × (last ≡ some e))
        → IsDelivery p n m.sent (post_loop lib client s host p n attempt last m)
    unfolding post_loop
    loop-IsDelivery zero attempt last m (inl h) = absurd (ground (arith, h))
    loop-IsDelivery zero attempt none m (inr (e, h)) = absurd (ground (arith, h))
    loop-IsDelivery zero attempt (some e) m h = record {
      new = [];
      appended = sym (append-nil m.sent);
      same = tt;
      ends = given_up e;
    }
    loop-IsDelivery (suc n) attempt last m h =
        let (reply, w) = client.post host p m.world in
        let m' : Mail W = record { sent = m.sent ++ (p, reply) ∷ []; world = w } in
        elim (Option-cases (settled reply)) [
          | inr (r, q) ↦ rw q (record {
            new = (p, reply) ∷ [];
            appended = refl;
            same = (refl, tt);
            ends = settled-Course n reply r q;
          })
          | inl q ↦
              let ih =
                loop-IsDelivery n (suc attempt) (some (error_of reply))
                  (pause lib client s n attempt m') (inr (error_of reply, refl)) in
              rw q (record {
                new = (p, reply) ∷ ih.new;
                appended =
                    ih.appended
                    ∙ ap (λ sent. sent ++ ih.new) (pause-sent n attempt m')
                    ∙ append_assoc m.sent ((p, reply) ∷ []) ih.new;
                same = (refl, ih.same);
                ends = settled_none n reply (answers ih.new) _ q ih.ends;
              })
        ]

  -- A delivery for a tenant with a webhook whose payload and URL are well formed, with at least one
  -- attempt allowed, sends only the post for the job: to the tenant's URL, signed with the tenant's
  -- secret. It goes on after an error of transport, a 429 and an answer from 500 on, until the
  -- attempts are used up, which is an error; it stops without an error at an answer below 400, and
  -- with one at any other.
  pub deliver-IsDelivery :
      (j : Job C) (m : Mail W) (cfg : Config) (body : List ℕ) (host : String)
      → get s.registry j.tenant ≡ some cfg
      → build_payload lib j ≡ ok body
      → lib.hostname cfg.url ≡ ok host
      → 0 < s.max_attempts
      → IsDelivery (the_post lib cfg j body) s.max_attempts m.sent (deliver lib client s j m)
  unfolding deliver
  deliver-IsDelivery j m cfg body host registered payload named some_attempt =
      rw (registered, payload, named)
        (loop-IsDelivery host (the_post lib cfg j body) s.max_attempts 1 none m (inl some_attempt))
