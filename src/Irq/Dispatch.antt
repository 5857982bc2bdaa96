-- ===== src/Irq/Dispatch.antt =====
-- Which handler an interrupt reaches, and which controllers are told that it is over.
use thuban.Base.{
  ℕ, ◌+◌, ◌%◌, ◌^◌, ◌<◌, ◌≡◌, ◌≢◌, refl, ◌∙◌, true, false, not, [], ◌∷◌, ◌++◌, ltb, ◌==◌,
  if◌then◌else◌, arith,
}
use thuban.Base.Int.{pos}
use thuban.Base.Store.{update_self}
use thuban.Irq.{
  Irq, pic1_command, pic2_command, pic_eoi, pic_send_eoi, irq_number, line_of, irq_install_handler,
  irq_uninstall_handler, irq_handler,
}

irq_number_lem : (i : ℕ) → i < 16 → irq_number (32 + i) ≡ i
unfolding irq_number
irq_number_lem i h = omega arith

-- What the interrupt of line `i` does.
dispatch :
    {W : Type 0} (call : ℕ → Irq → W → Irq × W) (i : ℕ) (s : Irq) (w : W)
    → i < 16
    → irq_handler call (32 + i) s w ≡ (
        let (s', w') : Irq × W =
          if not (s.irq_handlers i == 0) then call (s.irq_handlers i) s w else (s, w) in
        (record s' { sent = s'.sent ++ pic_send_eoi i }, w'))
unfolding irq_handler
dispatch call i s w h =
    let small : ltb i 16 ≡ true = ground arith in
    let byte : i % 2 ^ 8 ≡ i = omega arith in rw (irq_handler, irq_number_lem i h, small, byte) refl

irq_handlers-install :
    (i handler : ℕ) (s : Irq)
    → i < 16
    → (irq_install_handler (pos i) handler s).irq_handlers i ≡ handler
unfolding irq_install_handler line_of
irq_handlers-install i handler s h =
    let small : ltb i 16 ≡ true = ground arith in
    rw (irq_install_handler, small) (update_self s.irq_handlers i handler)

irq_handlers-uninstall :
    (i : ℕ) (s : Irq)
    → i < 16
    → ((irq_uninstall_handler (pos i) s).irq_handlers i ≡ 0)
      × ((irq_uninstall_handler (pos i) s).sent ≡ s.sent)
unfolding irq_uninstall_handler line_of
irq_handlers-uninstall i s h =
    let small : ltb i 16 ≡ true = ground arith in
    rw (irq_uninstall_handler, small) (update_self s.irq_handlers i 0, refl)

pic_send_eoi_lem :
    (i : ℕ)
    → pic_send_eoi i ≡ (
        if ltb i 8
        then (pic1_command, pic_eoi) ∷ []
        else ((pic2_command, pic_eoi) ∷ (pic1_command, pic_eoi) ∷ []))
unfolding pic_send_eoi
pic_send_eoi_lem i = ground arith

-- A handler other than NULL that is installed on one of the 16 lines is called by the interrupt of
-- that line, which ends with the message to the controllers: to the first one for the lines 0 to 7,
-- to both for the lines 8 to 15.
pub irq_handler-install :
    {W : Type 0} (call : ℕ → Irq → W → Irq × W) (i handler : ℕ) (s s' : Irq) (w w' : W)
    → i < 16
    → handler ≢ 0
    → call handler (irq_install_handler (pos i) handler s) w ≡ (s', w')
    → irq_handler call (32 + i) (irq_install_handler (pos i) handler s) w ≡ (
      record s' {
        sent =
            s'.sent
            ++ (if ltb i 8
                then (pic1_command, pic_eoi) ∷ []
                else ((pic2_command, pic_eoi) ∷ (pic1_command, pic_eoi) ∷ []));
      },
      w',
    )
irq_handler-install call i handler s s' w w' h nz done =
    let some_handler : (handler == 0) ≡ false = ground arith in
    dispatch call i (irq_install_handler (pos i) handler s) w h
    ∙ rw (irq_handlers-install i handler s h, some_handler, done, pic_send_eoi_lem i) refl

-- After `irq_uninstall_handler` the interrupt of the line calls nothing, and is ended all the same.
pub irq_handler-uninstall :
    {W : Type 0} (call : ℕ → Irq → W → Irq × W) (i : ℕ) (s : Irq) (w : W)
    → i < 16
    → irq_handler call (32 + i) (irq_uninstall_handler (pos i) s) w
      ≡ (record (irq_uninstall_handler (pos i) s) { sent = s.sent ++ pic_send_eoi i }, w)
irq_handler-uninstall call i s w h =
    let (empty, quiet) = irq_handlers-uninstall i s h in
    dispatch call i (irq_uninstall_handler (pos i) s) w h ∙ rw (empty, quiet) refl
