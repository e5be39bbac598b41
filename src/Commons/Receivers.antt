-- ===== src/Commons/Receivers.antt =====
-- libmodule's stack of message handlers, which is not under src/: `m_become` puts a handler on top,
-- and `m_unbecome` goes back to the one below. `top` is the handler that gets the next message; it is
-- `none` for the module's own `receive`.
use clight.Prelude.{ℕ, ◌<◌, ◌≡◌, refl, Option, none, some, List, [], ◌∷◌, ◌++◌, ◌==◌, if◌then◌else◌}
use clight.Commons.Effects.{
  Receiver, paused, Effect, publish, become, unbecome, deregister, stop, register_fd,
  subscribe_ambient_br, deregister_fd, settime, bus,
}

pub record Libmodule (S : Type 0) : Type 0 where
  pub m_become : Receiver → S → S
  pub m_unbecome : S → S
  pub top : S → Option Receiver
  pub unbecome-become : (r : Receiver) (s : S) → m_unbecome (m_become r s) ≡ s
  pub top-become : (r : Receiver) (s : S) → top (m_become r s) ≡ some r

-- What one effect, and a list of them, does to the stack.
abbrev pub receive_one : {S D : Type 0} → Libmodule S → Effect D → S → S
receive_one lib (become r) s = lib.m_become r s
receive_one lib unbecome s = lib.m_unbecome s
receive_one lib (publish m) s = s
receive_one lib deregister s = s
receive_one lib stop s = s
receive_one lib (register_fd fd ptr) s = s
receive_one lib (deregister_fd fd) s = s
receive_one lib subscribe_ambient_br s = s
receive_one lib (settime fd sec nsec) s = s
receive_one lib (bus c) s = s

abbrev pub receivers : {S D : Type 0} → Libmodule S → List (Effect D) → S → S
receivers lib [] s = s
receivers lib (e ∷ es) s = receivers lib es (receive_one lib e s)

pub receivers-append :
    {S D : Type 0} (lib : Libmodule S) (xs ys : List (Effect D)) (s : S)
    → receivers lib (xs ++ ys) s ≡ receivers lib ys (receivers lib xs s)
receivers-append lib [] ys s = refl
receivers-append lib (x ∷ xs) ys s = receivers-append lib xs ys (receive_one lib x s)

-- The stack of a module that began with `base`: its own handler if no reason pauses it, and
-- `receive_paused` above that otherwise.
abbrev pub IsSynced : {S : Type 0} → Libmodule S → S → ℕ → S → Type 0
IsSynced lib base p s = (p < 512) × (s ≡ (if p == 0 then base else lib.m_become paused base))

-- The stack of handlers as a list.
abbrev pub handler_list : Libmodule (List Receiver)
handler_list = record {
  m_become = λ r s. r ∷ s;
  m_unbecome = λ s. elim s [ [] ↦ [] | r ∷ rest ↦ rest ];
  top = λ s. elim s [ [] ↦ none | r ∷ rest ↦ some r ];
  unbecome-become = λ r s. refl;
  top-become = λ r s. refl;
}
