-- ===== src/Jni/Calls.antt =====
-- The calls of the bridge, one after the other and overlapping.
use vs_vpn.Prelude.{
  ℕ, suc, ◌≡◌, refl, subst, sym, [], ◌∷◌, Bytes, true, false, List, Option, none, some, ◌==◌,
  ==_refl, Bool-cases, inl, inr, arith,
}
use vs_vpn.Outcome.{Error}
use vs_vpn.Jni.{
  World, Platform, initial, emit, tee_write, begin_start, check_by, finish_start, finish_by,
  native_start, stop_by, native_stop, proxy_ends, native_poll_logs, without,
}

-- A call that nothing comes between, or the end of a proxy by itself.
pub data Call : Type 0 where
  start_call : (listen server : Bytes) → (bound : Option ℕ) → Call
  stop_call poll_call : Call
  end_call : ℕ → Error → Call

-- No proxy is running, or only the one that `STATE` holds.
pub data Single : Option ℕ → List ℕ → Type 0 where
  idle : (state : Option ℕ) → Single state []
  one : (n : ℕ) → Single (some n) (n ∷ [])

abbrev pub IsSingle : World → Type 0
IsSingle w = Single w.state w.running

pub none_running : (running : List ℕ) → Single none running → running ≡ []
none_running _ (idle _) = refl

none_left : (n : ℕ) (running : List ℕ) → Single (some n) running → without n running ≡ []
unfolding without
none_left n _ (idle _) = refl
none_left n _ (one _) = rw (==_refl n) refl

pub Single-without :
    (n : ℕ) (state : Option ℕ) (running : List ℕ)
    → Single state running
    → Single state (without n running)
unfolding without
Single-without n state _ (idle _) = idle state
Single-without n _ _ (one m) = elim (Bool-cases (m == n)) [
  | inl e ↦ rw e (idle (some m))
  | inr e ↦ rw e (one m)
]

module _ (platform : Platform) where
  start-IsSingle :
      (listen server : Bytes) (bound state : Option ℕ) (w : World)
      → state ≡ w.state
      → IsSingle w
      → IsSingle (finish_by platform bound (check_by platform listen server state w)).1
  unfolding emit tee_write finish_start
  start-IsSingle listen server bound (some n) w e h = h
  start-IsSingle listen server none none w e h = h
  start-IsSingle listen server (some p) none w e h =
      subst (λ ns. Single (some w.starts) (w.starts ∷ ns))
        (sym (none_running w.running (subst (λ st. Single st w.running) (sym e) h))) (one w.starts)

  pub stop_leaves :
      (state : Option ℕ) (w : World)
      → state ≡ w.state
      → IsSingle w
      → (stop_by platform state w).1.running ≡ []
  unfolding emit tee_write
  stop_leaves none w e h = none_running w.running (subst (λ st. Single st w.running) (sym e) h)
  stop_leaves (some n) w e h = none_left n w.running (subst (λ st. Single st w.running) (sym e) h)

  abbrev pub serve : Call → World → World
  serve (start_call listen server bound) w = (native_start platform listen server bound w).1
  serve stop_call w = (native_stop platform w).1
  serve poll_call w = (native_poll_logs platform w).1
  serve (end_call n e) w = proxy_ends platform n e w

  abbrev pub serve_all : List Call → World → World
  serve_all [] w = w
  serve_all (call ∷ calls) w = serve_all calls (serve call w)

  serve-IsSingle : (call : Call) (w : World) → IsSingle w → IsSingle (serve call w)
  unfolding native_start begin_start native_stop native_poll_logs proxy_ends emit tee_write
  serve-IsSingle (start_call listen server bound) w h =
      start-IsSingle listen server bound w.state w refl h
  serve-IsSingle stop_call w h =
      subst (λ ns. Single (stop_by platform w.state w).1.state ns)
        (sym (stop_leaves w.state w refl h)) (idle _)
  serve-IsSingle poll_call w h = h
  serve-IsSingle (end_call n e) w h = Single-without n w.state w.running h

  -- Where no proxy is running, or only the one that `STATE` holds, this is so after any calls
  -- that do not overlap, and whatever proxies have ended by themselves.
  pub serve_all-IsSingle :
      (calls : List Call) (w : World) → IsSingle w → IsSingle (serve_all calls w)
  serve_all-IsSingle [] w h = h
  serve_all-IsSingle (call ∷ calls) w h =
      serve_all-IsSingle calls (serve call w) (serve-IsSingle call w h)

  -- After any calls that do not overlap, from the start of the library on, and whatever proxies have
  -- ended by themselves, `nativeStop` leaves no proxy running.
  pub native_stop-running :
      (calls : List Call) → (native_stop platform (serve_all calls initial)).1.running ≡ []
  unfolding native_stop
  native_stop-running calls =
      let w = serve_all calls initial in
      stop_leaves w.state w refl (serve_all-IsSingle calls initial (idle none))

  -- No proxy runs, and `n` starts have been made.
  abbrev pub stopped_world : List Bytes → ℕ → World
  stopped_world logs n = record { log_buf = logs; state = none; starts = n; running = [] }

  -- What two starts leave behind that both check before one of them is finished.
  abbrev pub second_check : (listen server : Bytes) → World → Option ℕ × World
  second_check listen server w =
      begin_start platform listen server (begin_start platform listen server w).1

  abbrev pub overlapping : (listen server : Bytes) (p p' : ℕ) → World → World
  overlapping listen server p p' w =
      (finish_start platform (suc w.starts) (some p')
        (finish_start platform w.starts (some p) (second_check listen server w).1).1).1

  -- The check of `STATE` and the entry in it are two critical sections. Where no proxy runs and two
  -- calls of `nativeStart` both check before the first one is finished, both are let through; once
  -- both have bound a port, `nativeStop` stops the second proxy, a further `nativeStop` finds none,
  -- and the first proxy is still running.
  pub overlapping-running :
      (listen server : Bytes) (p p' n : ℕ) (logs : List Bytes)
      → ((begin_start platform listen server (stopped_world logs n)).0 ≡ some n)
        × ((second_check listen server (stopped_world logs n)).0 ≡ some (suc n))
        × ((native_stop platform (overlapping listen server p p' (stopped_world logs n))).0 ≡ true)
        × ((native_stop platform
              (native_stop platform (overlapping listen server p p' (stopped_world logs n))).1).0
            ≡ false)
        × ((native_stop platform
              (native_stop platform
                (overlapping listen server p p' (stopped_world logs n))).1).1.running
            ≡ n ∷ [])
  unfolding native_stop begin_start finish_start emit tee_write without
  overlapping-running listen server p p' n logs =
      (refl, refl, refl, refl, rw (==_refl (suc n), other) refl)
    where
      other : (n == suc n) ≡ false
      other = ground arith
