-- ===== src/ProtMain/Receiving/Contract.antt =====
-- What the read callback asks of the callbacks of the messages, and what is left of a message that
-- is received.
use deep_messenger.Prelude.{
  ℕ, ◌<◌, ◌≡◌, refl, ◌∙◌, ◌==◌, Bool, true, false, ◌&&◌, ◌||◌, if_elim, List, [], ◌∷◌, arith,
  length, if◌then◌else◌,
}
use deep_messenger.Hooks.{Hook, HookList, hook_list_call}
use deep_messenger.ProtMain.{
  Status, status_ok, is_ok, Recv, Pmain, Run, live, gone, fault, out_of_fuel, Handlers,
}
use deep_messenger.ProtMain.Codes.{ev_done}
use deep_messenger.ProtMain.Write.{
  is_empty, set_head, if_ok, call_hooks, prot_main_done_check, tail,
}
use deep_messenger.ProtMain.Read.{finish_recv}
use deep_messenger.ProtMain.Receiving.{IsAdmitted, HeadAdmitted, IsGuarded}

module _ {M : Type 0} where
  pub set_head-Admitted :
      (q : List (Recv M)) (phand : Recv M) (started : Bool) (id input : List ℕ)
      → HeadAdmitted q started id input
      → IsAdmitted phand started id input
      → HeadAdmitted (set_head phand q) started id input
  set_head-Admitted [] phand started id input h a = h
  set_head-Admitted (x ∷ q) phand started id input h a = a

module _ {M W : Type 0} where
  -- What a handler owes for the message that it is run on: it returns; if it is not done it has
  -- changed nothing that the check of the header rests on; if it is done it has taken something
  -- off the input.
  abbrev pub Handled : Recv M → Pmain M W → Run (Pmain M W) (Recv M × Pmain M W) → Type 0
  Handled phand p (live (phand', p')) =
      (p'.current_recv_done ≡ false
        → (phand' ≡ phand)
          × (p'.recv_q ≡ p.recv_q)
          × (p'.transaction_started ≡ p.transaction_started)
          × (p'.transaction_id ≡ p.transaction_id)
          × (p'.input ≡ p.input))
      × (p'.current_recv_done ≡ true → length p'.input < length p.input)
  Handled phand p _ = ⊥

  -- What a hook leaves as it is.
  abbrev pub Undisturbed : Pmain M W → Pmain M W → Type 0
  Undisturbed p q =
      (q.status ≡ p.status) × (q.input ≡ p.input) × (q.message_check_done ≡ p.message_check_done)

  -- A result that is no fault, and a guarded connection if it is still alive.
  abbrev pub RoundSafe : Pmain M W → Run (Pmain M W) (Pmain M W × Bool) → Type 0
  RoundSafe p (live (p', again)) =
      IsGuarded p' × (p'.status ≡ status_ok) × (again ≡ true → length p'.input < length p.input)
  RoundSafe p (gone q) = Unit
  RoundSafe p _ = ⊥

  abbrev pub CallbackSafe : Run (Pmain M W) (Pmain M W) → Type 0
  CallbackSafe (live p') = IsGuarded p' × (p'.status ≡ status_ok)
  CallbackSafe (gone q) = Unit
  CallbackSafe _ = ⊥

module _ {M W : Type 0} where
  pub RoundSafe-same :
      (p p' : Pmain M W)
      → p'.input ≡ p.input
      → (r : Run (Pmain M W) (Pmain M W × Bool)) → RoundSafe p' r
      → RoundSafe p r
  RoundSafe-same p p' e (live (q, again)) (g, ok, less) = (g, ok, (λ h. ground (arith, e, less h)))
  RoundSafe-same p p' e (gone q) h = tt
  RoundSafe-same p p' e fault h = absurd h
  RoundSafe-same p p' e out_of_fuel h = absurd h

pub is_ok→eq : (s : Status) → is_ok s ≡ true → s ≡ status_ok
unfolding is_ok
is_ok→eq status_ok h = refl
is_ok→eq _ h = cc

module _ {M W : Type 0} (hs : Handlers M W) where
  pub record IsLawful : Type 0 where
    pub handle :
        (phand : Recv M) (p : Pmain M W)
        → p.status ≡ status_ok
        → p.current_recv_done ≡ false
        → IsAdmitted phand p.transaction_started p.transaction_id p.input
        → Handled phand p (hs.recv_handle phand p)
    pub hook : (hk : Hook) (event : ℕ) (p : Pmain M W) → Undisturbed p (hs.call_hook hk event p)
    pub cleanup : (phand : Recv M) (p : Pmain M W) → (hs.recv_cleanup phand p).input ≡ p.input

  -- The result of an action that `if_ok` guards.
  pub if_ok_elim :
      {A : Type 0} (P : Run (Pmain M W) A → Type 0) (p : Pmain M W)
      (f : Pmain M W → Run (Pmain M W) A)
      → ((q : Pmain M W) → P (gone q))
      → (p.status ≡ status_ok → P (f p))
      → P (if_ok hs p f)
  unfolding if_ok
  if_ok_elim P p f failed go_on =
      if_elim P (is_ok p.status) (λ e. go_on (is_ok→eq p.status e)) (λ e. failed _)

  -- The message's handler is off the queue.
  abbrev pub Finished : List ℕ → Run (Pmain M W) (Pmain M W) → Type 0
  Finished input (live p') =
      (p'.message_check_done ≡ false) × (p'.status ≡ status_ok) × (p'.input ≡ input)
  Finished input (gone q) = Unit
  Finished input _ = ⊥

  hook_list_call-Undisturbed :
      (laws : IsLawful) (list : HookList) (event : ℕ) (p : Pmain M W)
      → Undisturbed p (hook_list_call hs.call_hook list event p)
  unfolding hook_list_call
  hook_list_call-Undisturbed laws [] event p = (refl, refl, refl)
  hook_list_call-Undisturbed laws (hk ∷ rest) event p =
      let q = if hk.hook_event == event then hs.call_hook hk event p else p in
      let (s, i, c) = hook_list_call-Undisturbed laws rest event q in
      let first : Undisturbed p q =
        if_elim (Undisturbed p) (hk.hook_event == event) {y = p} (λ _. laws.hook hk event p)
          (λ _. (refl, refl, refl)) in
      (s ∙ first.0, i ∙ first.1, c ∙ first.2)

  prot_main_done_check-Finished :
      (laws : IsLawful) (p : Pmain M W) (input : List ℕ)
      → p.message_check_done ≡ false
      → p.status ≡ status_ok
      → p.input ≡ input
      → Finished input (prot_main_done_check hs p)
  unfolding prot_main_done_check call_hooks
  prot_main_done_check-Finished laws p input e ok same =
      let p' = hook_list_call hs.call_hook p.hooks ev_done p in
      let (s, i, c) = hook_list_call-Undisturbed laws p.hooks ev_done p in
      if_elim (Finished input) (is_empty p.recv_q && is_empty p.tran_q) {y = live p}
        (λ _.
          if_elim (Finished input) (p'.run_free || p'.free_on_done) {y = live p'} (λ _. tt)
            (λ _. (c ∙ e, s ∙ ok, i ∙ same)))
        (λ _. (e, ok, same))

  pub finish_recv-Finished :
      (laws : IsLawful) (phand : Recv M) (p : Pmain M W) → Finished p.input (finish_recv hs phand p)
  unfolding finish_recv
  finish_recv-Finished laws phand p =
      let phand' = record phand { success = true } in
      let p' = if phand.has_cleanup then hs.recv_cleanup phand' p else p in
      let same : p'.input ≡ p.input = ground (arith, laws.cleanup phand' p) in
      if_ok_elim (Finished p.input) p'
        (λ p. prot_main_done_check hs (record p {
          recv_q = tail p.recv_q;
          current_recv_done = false;
          message_check_done = false;
        }))
        (λ q. tt)
        (λ ok.
          prot_main_done_check-Finished laws
            (record p' {
              recv_q = tail p'.recv_q;
              current_recv_done = false;
              message_check_done = false;
            })
            p.input refl ok same)
