-- ===== src/Ack/Lawful.antt =====
-- The acknowledgement's callbacks keep to the contract of the read callback.
use deep_messenger.Prelude.{
  not_ltb, ℕ, ◌<◌, ◌+◌, ◌≡◌, refl, Bool, true, false, not, ◌&&◌, List, if_elim, ltb, length, drop,
  length-drop, arith, if◌then◌else◌,
}
use deep_messenger.Hooks.{Hook}
use deep_messenger.ProtMain.{err_invalid_msg, Recv, Pmain, live}
use deep_messenger.ProtMain.Receiving.Contract.{Handled, IsLawful, Undisturbed}
use deep_messenger.BufferCrypto.{Verified, ed25519_buffer_validate}
use deep_messenger.Ack.{Ack, ack_len, recv_handle, cleanup, ack_handlers}

module _ {W : Type 0} (sha512 : List ℕ → List ℕ) (sign : List ℕ → List ℕ → List ℕ)
    (verify : List ℕ → List ℕ → List ℕ → Verified) (cb : Bool → Ack → Pmain Ack W → Pmain Ack W)
    (cb-input : (success : Bool) (ack : Ack) (p : Pmain Ack W)
      → (cb success ack p).input ≡ p.input) where
  drop_less :
      (xs ys : List ℕ) → xs ≡ ys → ack_len < length ys + 1 → length (drop ack_len xs) < length ys
  drop_less xs ys same enough =
      rw same (let shorter = length-drop ack_len ys in omega (arith, shorter))

  call_cb-input :
      (success : Bool) (ack : Ack) (p : Pmain Ack W) (b : Bool)
      → (if b then cb success ack p else p).input ≡ p.input
  call_cb-input success ack p true = cb-input success ack p
  call_cb-input success ack p false = refl

  recv_handle-Handled :
      (phand : Recv Ack) (p : Pmain Ack W)
      → p.current_recv_done ≡ false
      → Handled phand p (recv_handle sha512 sign verify cb phand p)
  unfolding recv_handle
  recv_handle-Handled phand p fresh =
      if_elim (Handled phand p) (ltb (length p.input) ack_len) {x = live (phand, p)}
        (λ _. ((λ _. (refl, refl, refl, refl, refl)), (λ e. absurd (ground arith))))
        (λ arrived.
          if_elim (Handled phand p)
            (not (ed25519_buffer_validate sha512 sign verify p.input ack_len phand.msg.pub_key))
            {x = live (phand, record p { status = err_invalid_msg })}
            (λ _. ((λ _. (refl, refl, refl, refl, refl)), (λ e. absurd (ground arith))))
            (λ _. (
              (λ e. absurd (ground arith)),
              (λ _.
                  drop_less _ p.input
                    (call_cb-input true (record phand.msg { ack_success = true }) p
                      phand.msg.has_cb)
                    (not_ltb (length p.input) ack_len arrived)),
            )))

  cleanup-input :
      (ack : Ack) (p : Pmain Ack W) → (cleanup sha512 sign verify cb ack p).input ≡ p.input
  unfolding cleanup
  cleanup-input ack p = call_cb-input false ack p (not ack.ack_success && ack.has_cb)

  -- Whatever the acknowledgement's callback does to the connection besides its input, receiving
  -- acknowledgements meets the contract that `bev_read_cb` asks of its handlers: an incomplete
  -- or a badly signed one changes nothing that was checked, and a valid one is taken off the input.
  pub ack_handlers-IsLawful :
      (call_hook : Hook → ℕ → Pmain Ack W → Pmain Ack W)
      → ((hk : Hook) (event : ℕ) (p : Pmain Ack W) → Undisturbed p (call_hook hk event p))
      → IsLawful (ack_handlers sha512 sign verify cb call_hook)
  ack_handlers-IsLawful call_hook calm = record {
    hook = calm;
    handle = λ phand p ok fresh admitted. recv_handle-Handled phand p fresh;
    cleanup = λ phand p. cleanup-input phand.msg p;
  }
