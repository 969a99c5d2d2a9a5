-- ===== src/Updater/Exec.antt =====
-- A function with a `&mut SignedChannel` that returns a `Result`: what it wrote before an error
-- stays written, so the context comes back beside the outcome.
use mathlib.Core.Path.{◌≡◌, refl}
use rust_dlc.Base.{Outcome, ok, err, panic}
use rust_dlc.Monitor.{ChainMonitor}
use rust_dlc.Updater.Types.{Error, Context, SignedChannel}

abbrev pub Exec : Type 0 → Type 0
Exec A = Context → Outcome Error A × Context

abbrev pub continue : {A B : Type 0} → Outcome Error A → (A → Exec B) → Exec B
continue panic f s = (panic, s)
continue (err e) f s = (err e, s)
continue (ok a) f s = f a s

infixl 5 ◌>>=◌ ◌>>◌
abbrev pub ◌>>=◌ : {A B : Type 0} → Exec A → (A → Exec B) → Exec B
◌>>=◌ m f s = let (r, t) = m s in continue r f t

abbrev pub ◌>>◌ : {A B : Type 0} → Exec A → Exec B → Exec B
◌>>◌ m n = m >>= λ _. n

-- A step that reads no state and writes none.
abbrev pub lift : {A : Type 0} → Outcome Error A → Exec A
lift r s = (r, s)

abbrev pub get_channel : Exec SignedChannel
get_channel s = (ok s.channel, s)

abbrev pub put_channel : SignedChannel → Exec (Unit {0})
put_channel c s = (ok tt, record s { channel = c })

-- `chain_monitor.lock().unwrap()` and a call that writes to it.
abbrev pub modify_monitor : (ChainMonitor → ChainMonitor) → Exec (Unit {0})
modify_monitor f s = (ok tt, record s { monitor = f s.monitor })

-- A property of every end of a step and what follows it.
pub continue-cases {ℓ} :
    {A B : Type 0} (P : Outcome Error B × Context → Type ℓ) (r : Outcome Error A) (f : A → Exec B)
    (s : Context)
    → ((e : Error) → P (err e, s))
    → P (panic, s)
    → ((a : A) → r ≡ ok a → P (f a s))
    → P (continue r f s)
continue-cases P panic f s on_err on_panic on_ok = on_panic
continue-cases P (err e) f s on_err on_panic on_ok = on_err e
continue-cases P (ok a) f s on_err on_panic on_ok = on_ok a refl
