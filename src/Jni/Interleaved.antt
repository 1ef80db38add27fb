-- ===== src/Jni/Interleaved.antt =====
-- Calls of the bridge from several threads, where no two starts overlap.
use vs_vpn.Prelude.{ℕ, ◌≡◌, refl, subst, sym, [], ◌∷◌, Bytes, Option, none, some}
use vs_vpn.Outcome.{Error}
use vs_vpn.Jni.{
  World, Platform, initial, emit, tee_write, begin_start, check_by, finish_start, stop_by,
  native_stop, proxy_ends, native_poll_logs,
}
use vs_vpn.Jni.Calls.{IsSingle, Single, idle, one, none_running, stop_leaves, Single-without}

-- The statics, and the start that has passed its check and waits for its port.
pub record Bridge : Type 0 where
  pub world : World
  pub pending : Option ℕ

abbrev pub loaded : Bridge
loaded = record { world = initial; pending = none }

module _ (platform : Platform) where
  -- The critical sections of the calls: the two halves of `nativeStart`, and the others at any time, also
  -- between the two. A proxy can end by itself at any time too.
  pub data Step : Bridge → Bridge → Type 0 where
    begins :
        (b : Bridge) (listen server : Bytes)
        → b.pending ≡ none
        → Step b (record {
          world = (begin_start platform listen server b.world).1;
          pending = (begin_start platform listen server b.world).0;
        })
    finishes :
        (b : Bridge) (n : ℕ) (bound : Option ℕ)
        → b.pending ≡ some n
        → Step b (record { world = (finish_start platform n bound b.world).1; pending = none })
    stops : (b : Bridge) → Step b (record b { world = (native_stop platform b.world).1 })
    polls : (b : Bridge) → Step b (record b { world = (native_poll_logs platform b.world).1 })
    ends :
        (b : Bridge) (n : ℕ) (e : Error)
        → Step b (record b { world = proxy_ends platform n e b.world })

  pub data Reach (b : Bridge) : Bridge → Type 0 where
    here : Reach b b
    later : {c d : Bridge} → Reach b c → Step c d → Reach b d

  -- No proxy is running, or only the one that `STATE` holds; while a start waits, `STATE` is empty.
  pub record IsGuarded (b : Bridge) : Type 0 where
    pub single : IsSingle b.world
    pub empty : (n : ℕ) → b.pending ≡ some n → b.world.state ≡ none

  check-IsGuarded :
      (listen server : Bytes) (state : Option ℕ) (w : World)
      → w.state ≡ state
      → IsSingle w
      → IsGuarded (record {
        world = (check_by platform listen server state w).1;
        pending = (check_by platform listen server state w).0;
      })
  unfolding emit tee_write
  check-IsGuarded listen server (some n) w h s = record { single = s; empty = λ m e. absurd (cc) }
  check-IsGuarded listen server none w h s = record { single = s; empty = λ m e. h }

  finish-IsSingle :
      (n : ℕ) (bound : Option ℕ) (w : World)
      → w.state ≡ none
      → IsSingle w
      → IsSingle (finish_start platform n bound w).1
  unfolding finish_start emit tee_write
  finish-IsSingle n none w h s = s
  finish-IsSingle n (some p) w h s =
      subst (λ ns. Single (some n) (n ∷ ns))
        (sym (none_running w.running (subst (λ st. Single st w.running) h s))) (one n)

  stop_by-none :
      (state : Option ℕ) (w : World) → w.state ≡ state → (stop_by platform state w).1.state ≡ none
  unfolding emit tee_write
  stop_by-none none w h = h
  stop_by-none (some n) w h = refl

  stop_empties : (w : World) → (native_stop platform w).1.state ≡ none
  unfolding native_stop
  stop_empties w = stop_by-none w.state w refl

  stop_running : (w : World) → IsSingle w → (native_stop platform w).1.running ≡ []
  unfolding native_stop
  stop_running w s = stop_leaves platform w.state w refl s

  Step-IsGuarded : {b c : Bridge} → Step b c → IsGuarded b → IsGuarded c
  unfolding begin_start native_poll_logs proxy_ends emit tee_write
  Step-IsGuarded (begins b listen server h) g =
      check-IsGuarded listen server b.world.state b.world refl g.single
  Step-IsGuarded (finishes b n bound h) g = record {
    single = finish-IsSingle n bound b.world (g.empty n h) g.single;
    empty = λ m e. absurd (cc);
  }
  Step-IsGuarded (stops b) g = record {
    single =
        subst (λ ns. Single (native_stop platform b.world).1.state ns)
          (sym (stop_running b.world g.single)) (idle _);
    empty = λ m e. stop_empties b.world;
  }
  Step-IsGuarded (polls b) g = record { single = g.single; empty = g.empty }
  Step-IsGuarded (ends b n e) g = record {
    single = Single-without n b.world.state b.world.running g.single;
    empty = g.empty;
  }

  Reach-IsGuarded : {b c : Bridge} → Reach b c → IsGuarded b → IsGuarded c
  Reach-IsGuarded here g = g
  Reach-IsGuarded (later r s) g = Step-IsGuarded s (Reach-IsGuarded r g)

  -- From the start of the library on, after the critical sections of any calls of start, stop and poll in any
  -- order, also of a stop between the two sections of a start, and whatever proxies have ended by themselves:
  -- as long as no two starts overlap, at most the proxy that `STATE` holds is running, and `nativeStop`
  -- leaves none running. A start that waits for its port is none of them, and goes on.
  pub Reach-running :
      (b : Bridge)
      → Reach loaded b
      → IsSingle b.world × ((native_stop platform b.world).1.running ≡ [])
  Reach-running b r =
      let g = Reach-IsGuarded r (record { single = idle none; empty = λ n e. absurd (cc) }) in
      (g.single, stop_running b.world g.single)
