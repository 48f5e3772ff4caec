-- ===== src/Env/Monad.antt =====
-- The functions of the contract as actions on the environment. A panic (a failed `require_auth`,
-- an arithmetic overflow, a trap of a called contract) is an outcome of its own. The environment
-- comes back beside an error too: what was written before it stays written until the host
-- discards it.
use predict_iq.Prelude.{
  ℕ, ◌+◌, ℤ, Bool, true, false, Option, none, some, ◌∷◌, leb, if◌then◌else◌, is_i128, u64_max,
}
use predict_iq.Types.{Address}
use predict_iq.Types.Error.{ErrorCode}
use predict_iq.Env.External.{Host}
use predict_iq.Env.Effects.{Event, Entry, publish, extend_ttl}
use predict_iq.Env.Stores.{Env}

pub data Outcome (A : Type 0) : Type 0 where
  ok : A → Outcome A
  err : ErrorCode → Outcome A
  panic : Outcome A

abbrev pub M : Host → Type 0 → Type 0
M host A = Env host → Outcome A × Env host

module _ {host : Host} {A : Type 0} where
  abbrev pub pure : A → M host A
  pure a e = (ok a, e)

  -- `return Err(code)`.
  abbrev pub fail : ErrorCode → M host A
  fail c e = (err c, e)

  abbrev pub gets : (Env host → A) → M host A
  gets f e = (ok (f e), e)

  -- `.ok_or(code)?`.
  abbrev pub ok_or : Option A → ErrorCode → M host A
  ok_or none c e = (err c, e)
  ok_or (some a) c e = (ok a, e)

  -- A value that panics when it is missing.
  abbrev pub or_panic : Option A → M host A
  or_panic none e = (panic, e)
  or_panic (some a) e = (ok a, e)

module _ {host : Host} {A B : Type 0} where
  abbrev pub continue : Outcome A → (A → M host B) → M host B
  continue (ok a) f e = f a e
  continue (err c) f e = (err c, e)
  continue panic f e = (panic, e)

  infixl 5 ◌>>=◌ ◌>>◌
  abbrev pub ◌>>=◌ : M host A → (A → M host B) → M host B
  ◌>>=◌ m f e = let (r, e') = m e in continue r f e'

  abbrev pub ◌>>◌ : M host A → M host B → M host B
  m >> k = m >>= λ _. k

module _ {host : Host} where
  -- `if bad { return Err(code); }`.
  abbrev pub fail_if : Bool → ErrorCode → M host (Unit {0})
  fail_if bad c e = (if bad then err c else ok tt, e)

  abbrev pub when : Bool → M host (Unit {0}) → M host (Unit {0})
  when true m e = m e
  when false m e = (ok tt, e)

  abbrev pub modify : (Env host → Env host) → M host (Unit {0})
  modify f e = (ok tt, f e)

  -- `address.require_auth()`.
  abbrev pub require_auth : Address → M host (Unit {0})
  require_auth a e = (if e.ledger.authorized a then ok tt else panic, e)

  abbrev pub now : M host ℕ
  now e = (ok e.ledger.timestamp, e)

  abbrev pub current_contract : M host Address
  current_contract e = (ok e.ledger.current_contract, e)

  unfoldable pub emit : Event → M host (Unit {0})
  emit v e = (ok tt, record e { effects = publish v ∷ e.effects })

  unfoldable pub bump_ttl : Entry → ℕ → ℕ → M host (Unit {0})
  bump_ttl k low high e = (ok tt, record e { effects = extend_ttl k low high ∷ e.effects })

  -- `+` on u64 and u32 with overflow checks.
  abbrev pub add_within : ℕ → ℕ → ℕ → M host ℕ
  add_within bound a b e = (if leb (a + b) bound then ok (a + b) else panic, e)

  abbrev pub add_u64 : ℕ → ℕ → M host ℕ
  add_u64 = add_within u64_max

  -- The result of an unchecked i128 operation.
  abbrev pub i128_or_panic : ℤ → M host ℤ
  i128_or_panic a e = (if is_i128 a then ok a else panic, e)

  -- `token::Client::balance`.
  abbrev pub client_balance : Address → Address → M host ℤ
  client_balance token account e = (ok (host.token_balance e.tokens token account), e)

  -- `token::Client::transfer`, which traps on a failure.
  unfoldable pub client_transfer : Address → Address → Address → ℤ → M host (Unit {0})
  client_transfer token from to amount e =
      elim (host.token_transfer e.tokens token from to amount) [
        | none ↦ (panic, e)
        | some t ↦ (ok tt, record e { tokens = t })
      ]

  -- What the host keeps of an invocation: the writes of one that returns `Ok`, and nothing of one
  -- that returns an error or panics.
  abbrev pub settled : {A : Type 0} → Env host → Outcome A × Env host → Env host
  settled e (ok a, e') = e'
  settled e (err c, e') = e
  settled e (panic, e') = e

  abbrev pub settle : {A : Type 0} → M host A → Env host → Env host
  settle m e = settled e (m e)

  -- The environment of a later invocation: the same storage at another time.
  abbrev pub at_time : ℕ → Env host → Env host
  at_time t e = record e { ledger = record e.ledger { timestamp = t } }
