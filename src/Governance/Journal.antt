-- ===== src/Governance/Journal.antt =====
-- The ledger of packages/governance/src/audit-ledger.ts with the id generator and the clock that its
-- writers are handed (`deps`). Both answer by how often they were called before.
use liminal_engine.Prelude.{
  ℕ, ◌+◌, String, ◌≡◌, refl, sym, ap, ap₂, ◌∙◌, true, List, [], ◌∷◌, ◌++◌, Result, ok, err,
}
use liminal_engine.Prelude.Effect.{Effect, Moves, Moves->>=, lift, ◌>>=◌}
use liminal_engine.Prelude.Grown.{append_nil, append_assoc}
use liminal_engine.Contracts.Zod.{Zod}
use liminal_engine.Contracts.Audit.{AuditEvent}
use liminal_engine.Governance.Enforcement.{Calls}
use liminal_engine.Governance.Ledger.{SealedAuditEvent, AuditLedger, append, verify_chain}
use liminal_engine.Governance.Ledger.Chain.{append-verified, append-IsAppended}

pub record Journal : Type 0 where
  pub ledger : AuditLedger
  pub calls : Calls

-- `deps`: what the generator and the clock answer at each call.
pub record Deps : Type 0 where
  pub id_at : ℕ → String
  pub time_at : ℕ → String

-- `idGen.next()`
unfoldable pub next_id : Deps → Effect Journal String
next_id deps j =
    (ok (deps.id_at j.calls.ids), record j { calls = record j.calls { ids = j.calls.ids + 1 } })

-- `clock.now()`
unfoldable pub now : Deps → Effect Journal String
now deps j = (
  ok (deps.time_at j.calls.times),
  record j { calls = record j.calls { times = j.calls.times + 1 } },
)

abbrev sealed_into :
    Journal → Result (SealedAuditEvent × AuditLedger) → Result SealedAuditEvent × Journal
sealed_into j (ok (sealed, ledger)) = (ok sealed, record j { ledger = ledger })
sealed_into j (err message) = (err message, j)

-- `ledger.append(event)`
unfoldable pub append_to_ledger : Zod → AuditEvent → Effect Journal SealedAuditEvent
append_to_ledger zod event j = sealed_into j (append zod j.ledger event)

-- A later ledger: it begins with the earlier one, and verifies if that one does.
pub record IsExtended (before after : AuditLedger) : Type 0 where
  pub added : List SealedAuditEvent
  pub grown : after ≡ before ++ added
  pub verified : (verify_chain before).valid ≡ true → (verify_chain after).valid ≡ true

pub IsExtended-refl : (l : AuditLedger) → IsExtended l l
IsExtended-refl l = record { added = []; grown = sym (append_nil l); verified = λ v. v }

pub IsExtended-trans : (a b c : AuditLedger) → IsExtended a b → IsExtended b c → IsExtended a c
IsExtended-trans a b c p q = record {
  added = p.added ++ q.added;
  grown = q.grown ∙ ap (λ l. l ++ q.added) p.grown ∙ append_assoc a p.added q.added;
  verified = λ v. q.verified (p.verified v);
}

-- A method that leaves a later ledger, also where it throws.
abbrev pub Extending : {A : Type 0} → Effect Journal A → Type 0
Extending m = Moves (λ j k. IsExtended j.ledger k.ledger) m

pub Extending->>= :
    {A B : Type 0} (m : Effect Journal A) (next : A → Effect Journal B)
    → Extending m
    → ((a : A) → Extending (next a))
    → Extending (m >>= next)
Extending->>= m next =
    Moves->>= (λ j k. IsExtended j.ledger k.ledger) (λ j. IsExtended-refl j.ledger)
      (λ i j k. IsExtended-trans i.ledger j.ledger k.ledger) m next

pub Extending-lift : {A : Type 0} (r : Result A) → Extending (lift r)
Extending-lift r = record { at = λ j. IsExtended-refl j.ledger }

pub next_id-Extending : (deps : Deps) → Extending (next_id deps)
unfolding next_id
next_id-Extending deps = record { at = λ j. IsExtended-refl j.ledger }

pub now-Extending : (deps : Deps) → Extending (now deps)
unfolding now
now-Extending deps = record { at = λ j. IsExtended-refl j.ledger }

-- Appending extends the ledger, or throws and leaves it.
pub append_to_ledger-Extending :
    (zod : Zod) (event : AuditEvent) → Extending (append_to_ledger zod event)
unfolding append_to_ledger
append_to_ledger-Extending zod event = record {
  at = λ j. of_result j (append zod j.ledger event) refl;
}
  where
    of_result :
        (j : Journal) (r : Result (SealedAuditEvent × AuditLedger))
        → append zod j.ledger event ≡ r
        → IsExtended j.ledger (sealed_into j r).1.ledger
    of_result j (err message) e = IsExtended-refl j.ledger
    of_result j (ok (sealed, after)) e = record {
      added = sealed ∷ [];
      grown = (append-IsAppended zod j.ledger event sealed after e).grown;
      verified = λ v. (append-verified zod j.ledger event sealed after e v).1;
    }

-- What was appended, where appending ended well.
pub append_to_ledger-ok :
    (zod : Zod) (event : AuditEvent) (j k : Journal) (sealed : SealedAuditEvent)
    → append_to_ledger zod event j ≡ (ok sealed, k)
    → append zod j.ledger event ≡ ok (sealed, k.ledger)
unfolding append_to_ledger
append_to_ledger-ok zod event j k sealed h = of_result (append zod j.ledger event) h
  where
    of_result :
        (r : Result (SealedAuditEvent × AuditLedger))
        → sealed_into j r ≡ (ok sealed, k)
        → r ≡ ok (sealed, k.ledger)
    of_result (err message) e = let bad : err message ≡ ok sealed = ap (λ p. p.0) e in cc
    of_result (ok (made, ledger)) e =
        let same : made ≡ sealed = cc in
        let at : ledger ≡ k.ledger = ap (λ p. p.1.ledger) e in ap₂ (λ a b. ok (a, b)) same at
