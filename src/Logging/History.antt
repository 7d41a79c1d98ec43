-- ===== src/Logging/History.antt =====
-- src/logging.rs: what a call of the plugin adds to the host's log, whatever the state it starts in.
use imageglass_ithmb_plugin.Prelude.{
  ℕ, ◌≡◌, ◌⊎◌, refl, sym, ◌∙◌, ap, List, [], ◌++◌, Option, none, some, Bool, true, false,
  if◌then◌else◌, ltb, length, take, All, All-append,
}
use mathlib.Core.Path.{subst}
use mathlib.Core.List.{append_assoc, append-nil}
use imageglass_ithmb_plugin.Prelude.Int.{pos}
use imageglass_ithmb_plugin.Types.{IgStatus, Result, Ptr, null, ref, IgHostApi, IgHostCoreApi}
use imageglass_ithmb_plugin.World.{
  World, LogCall, Outcome, done, panicked, undefined, Run, pure, modify, ask, panic,
  undefined_behaviour, unwrap, from_raw_parts, catch_unwind_or, ◌>>=◌,
}

-- A call of the log function in the host table that is stored, at one of the two levels in use.
pub record IsMessage (stored : Option (Ptr IgHostApi)) (c : LogCall) : Type 0 where
  pub api : IgHostApi
  pub core : IgHostCoreApi
  pub hosted : stored ≡ some (ref api)
  pub cored : api.core ≡ ref core
  pub function : core.log ≡ some c.log_fn
  pub level : (c.level ≡ pos 0) ⊎ (c.level ≡ pos 2)

-- The stored host table is the same, and messages have been added to the log.
pub record Sent (w w' : World) : Type 0 where
  pub hosted : w'.host_api ≡ w.host_api
  pub messages : List LogCall
  pub extends : w'.log_calls ≡ w.log_calls ++ messages
  pub each : All (IsMessage w.host_api) messages

pub Sent-same : (w w' : World) → w'.host_api ≡ w.host_api → w'.log_calls ≡ w.log_calls → Sent w w'
Sent-same w w' h l = record {
  hosted = h;
  messages = [];
  extends = l ∙ sym (append-nil w.log_calls);
  each = tt;
}

pub Sent-trans : (w w' w'' : World) → Sent w w' → Sent w' w'' → Sent w w''
Sent-trans w w' w'' s t = record {
  hosted = t.hosted ∙ s.hosted;
  messages = s.messages ++ t.messages;
  extends =
      t.extends
      ∙ ap (λ (l : List LogCall). l ++ t.messages) s.extends
      ∙ append_assoc w.log_calls s.messages t.messages;
  each =
      All-append (IsMessage w.host_api) s.messages t.messages s.each
        (subst (λ (h : Option (Ptr IgHostApi)). All (IsMessage h) t.messages) s.hosted t.each);
}

-- How a run can end: also a panic leaves the log in that way.
abbrev pub Sends {ℓ} : {A : Type ℓ} → World → Outcome A → Type 0
Sends w (done a w') = Sent w w'
Sends w (panicked w') = Sent w w'
Sends w undefined = Unit

pub record Logs {ℓ} {A : Type ℓ} (m : Run A) : Type 0 where
  pub sends : (w : World) → Sends w (m w)

pub Sends-after {ℓ} :
    {A : Type ℓ} (w w' : World) (o : Outcome A) → Sent w w' → Sends w' o → Sends w o
Sends-after w w' (done a v) s t = Sent-trans w w' v s t
Sends-after w w' (panicked v) s t = Sent-trans w w' v s t
Sends-after w w' undefined s t = tt

Sends-bound {ℓ κ} :
    {A : Type ℓ} {B : Type κ} (w : World) (o : Outcome A) (f : A → Run B)
    → Sends w o
    → ((a : A) (w' : World) → Sent w w' → Sends w' (f a w'))
    → Sends w (elim o [ done a w' ↦ f a w' | panicked w' ↦ panicked w' | undefined ↦ undefined ])
Sends-bound w (done a w') f s t = Sends-after w w' (f a w') s (t a w' s)
Sends-bound w (panicked w') f s t = s
Sends-bound w undefined f s t = tt

pub Sends-bind {ℓ κ} :
    {A : Type ℓ} {B : Type κ} (w : World) (m : Run A) (f : A → Run B)
    → Sends w (m w)
    → ((a : A) (w' : World) → Sent w w' → Sends w' (f a w'))
    → Sends w ((m >>= f) w)
Sends-bind w m f s t = Sends-bound w (m w) f s t

-- The same where the parts log in every state.
pub Logs-bind {ℓ κ} :
    {A : Type ℓ} {B : Type κ} (m : Run A) (f : A → Run B)
    → Logs m
    → ((a : A) → Logs (f a))
    → Logs (m >>= f)
Logs-bind m f s t = record { sends = λ w. Sends-bind w m f (s.sends w) λ a w' _. (t a).sends w' }

pub Logs-pure {ℓ} : {A : Type ℓ} (a : A) → Logs (pure a)
Logs-pure a = record { sends = λ w. Sent-same w w refl refl }

pub Logs-panic {ℓ} : (A : Type ℓ) → Logs (panic {A = A})
Logs-panic A = record { sends = λ w. Sent-same w w refl refl }

pub Logs-ask {ℓ} : {A : Type ℓ} (f : World → A) → Logs (ask f)
Logs-ask f = record { sends = λ w. Sent-same w w refl refl }

pub Logs-undefined {ℓ} : {A : Type ℓ} → Logs (undefined_behaviour {A = A})
Logs-undefined = record { sends = λ w. tt }

-- A change of the state that leaves the host table and the log alone.
pub Logs-modify :
    (f : World → World)
    → ((w : World) → ((f w).host_api ≡ w.host_api) × ((f w).log_calls ≡ w.log_calls))
    → Logs (modify f)
Logs-modify f same = record { sends = λ w. Sent-same w (f w) (same w).0 (same w).1 }

pub Logs-unwrap {ℓ} : {A : Type ℓ} (o : Option A) → Logs (unwrap o)
Logs-unwrap {A} none = Logs-panic A
Logs-unwrap (some a) = Logs-pure a

-- Branches.
pub Logs-if {ℓ} :
    {A : Type ℓ} (b : Bool) (m k : Run A) → Logs m → Logs k → Logs (if b then m else k)
Logs-if true m k s t = s
Logs-if false m k s t = t

pub Logs-elim {ℓ κ} :
    {A : Type ℓ} {B : Type κ} (o : Option A) (m : Run B) (f : A → Run B)
    → Logs m
    → ((a : A) → Logs (f a))
    → Logs (elim o [ none ↦ m | some a ↦ f a ])
Logs-elim none m f s t = s
Logs-elim (some a) m f s t = t a

pub Sends-if {ℓ} :
    {A : Type ℓ} (w : World) (b : Bool) (o o' : Outcome A)
    → Sends w o
    → Sends w o'
    → Sends w (if b then o else o')
Sends-if w true o o' s t = s
Sends-if w false o o' s t = t

pub Logs-result {ℓ κ} :
    {A : Type ℓ} {B : Type κ} (r : Result A) (m : IgStatus → Run B) (f : A → Run B)
    → ((e : IgStatus) → Logs (m e))
    → ((a : A) → Logs (f a))
    → Logs (elim r [ Result.err e ↦ m e | Result.ok a ↦ f a ])
Logs-result (Result.err e) m f s t = s e
Logs-result (Result.ok a) m f s t = t a

pub Logs-from_raw_parts : (p : Ptr (List ℕ)) (n : ℕ) → Logs (from_raw_parts p n)
Logs-from_raw_parts null n = record { sends = λ w. tt }
Logs-from_raw_parts (ref units) n =
    Logs-if (ltb (length units) n) undefined_behaviour (pure (take n units))
      (record { sends = λ w. tt }) (Logs-pure (take n units))

Sends-caught {ℓ} :
    {A : Type ℓ} (w : World) (default : A) (o : Outcome A)
    → Sends w o
    → Sends w
        (elim o [ done a w' ↦ done a w' | panicked w' ↦ done default w' | undefined ↦ undefined ])
Sends-caught w default (done a w') s = s
Sends-caught w default (panicked w') s = s
Sends-caught w default undefined s = tt

pub Logs-catch_unwind_or {ℓ} :
    {A : Type ℓ} (default : A) (m : Run A) → Logs m → Logs (catch_unwind_or default m)
Logs-catch_unwind_or default m s = record { sends = λ w. Sends-caught w default (m w) (s.sends w) }

-- One rule for each form of the code.
pub ruleset log_rules = (
  Logs-bind, Logs-pure, Logs-panic, Logs-ask, Logs-unwrap, Logs-if, Logs-elim, Logs-result,
  Logs-from_raw_parts, Logs-catch_unwind_or,
)
