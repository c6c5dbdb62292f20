-- ===== src/Commits/Past.antt =====
-- A commit that is over stays over: its number never comes back to a slot that it has left.
use crossbar.Base.{ℕ, ◌≤◌, ◌<◌, ◌^◌, ◌≡◌, ◌≢◌, refl, sym, ap, ◌∙◌, some, arith}
use crossbar.Layout.{seq_writing}
use crossbar.Region.State.{RingEntry}
use crossbar.Region.Ring.{slot_of}
use crossbar.Commits.Protocol.{Phase, seq_in, Ring, Act, rest, begin, mark, point, size, close}
use crossbar.Commits.Steps.{System, Steps, here, publisher, others, moved}
use crossbar.Commits.Refines.{ring_of, moved-Act}
use crossbar.Commits.Sound.{Sound, Steps-Sound, begun_after-le, stolen_after-zero}

-- Nobody works on the commit of number `a`.
pub record Done (v : Ring) (a : ℕ) : Type 0 where
  pub taken : a ≤ v.last
  pub over : (p : ℕ) → seq_in (v.phase p) ≢ some a

-- What stays so from `v` to `u`.
pub record Past (v : Ring) (a : ℕ) (u : Ring) : Type 0 where
  pub done : Done u a
  pub same_message : u.history a ≡ v.history a
  pub left : (j : ℕ) → (v.row j).seq ≢ a → (u.row j).seq ≢ a

module _ (slot : ℕ → ℕ) (v : Ring) (p a : ℕ) (d : Done v a) (valid : a ≢ seq_writing) where
  Act-Past : {f : Phase} {u : Ring} → Act slot v p f u → f ≡ v.phase p → Past v a u
  Act-Past (rest f) e = record {
    done = record {
      taken = ground (arith, d.taken);
      over = λ q h. ground (arith, d.over q, d.over p, d.taken);
    };
    same_message = ground (arith, d.taken);
    left = λ j ne h. ground (arith, d.over p);
  }
  Act-Past (begin job) e = record {
    done = record {
      taken = ground (arith, d.taken);
      over = λ q h. ground (arith, d.over q, d.over p, d.taken);
    };
    same_message = ground (arith, d.taken);
    left = λ j ne h. ground (arith, d.over p);
  }
  Act-Past (mark b job) e = record {
    done = record {
      taken = ground (arith, d.taken);
      over = λ q h. ground (arith, d.over q, d.over p, d.taken);
    };
    same_message = ground (arith, d.taken);
    left = λ j ne h. ground (arith, d.over p);
  }
  Act-Past (point b job) e = record {
    done = record {
      taken = ground (arith, d.taken);
      over = λ q h. ground (arith, d.over q, d.over p, d.taken);
    };
    same_message = ground (arith, d.taken);
    left = λ j ne h. ground (arith, d.over p);
  }
  Act-Past (size b job) e = record {
    done = record {
      taken = ground (arith, d.taken);
      over = λ q h. ground (arith, d.over q, d.over p, d.taken);
    };
    same_message = ground (arith, d.taken);
    left = λ j ne h. ground (arith, d.over p);
  }
  Act-Past (close b job) e = record {
    done = record {
      taken = ground (arith, d.taken);
      over = λ q h. ground (arith, d.over q, d.over p, d.taken);
    };
    same_message = ground (arith, d.taken);
    left = λ j ne h. ground (arith, d.over p);
  }

Past-trans : {v u w : Ring} {a : ℕ} → Past v a u → Past u a w → Past v a w
Past-trans x y = record {
  done = y.done;
  same_message = y.same_message ∙ x.same_message;
  left = λ j ne. y.left j (x.left j ne);
}

pub Steps-Past :
    (i : ℕ) {s t : System i} (a : ℕ)
    → Steps i s t
    → Sound i s
    → t.begun < 2 ^ 62
    → t.stolen ≡ 0
    → a ≢ seq_writing
    → Done (ring_of i s) a
    → Past (ring_of i s) a (ring_of i t)
unfolding moved
Steps-Past i a here x room kept valid d = record {
  done = d;
  same_message = refl;
  left = λ j ne. ne;
}
Steps-Past i {s} a (publisher {t} steps single_publisher choice p) x room kept valid d =
    let more = begun_after-le i (t.pc p) t.begun in
    let kept_before = stolen_after-zero i (t.pc p) t.mem t.stolen kept in
    let before = Steps-Past i a steps x (omega arith) kept_before valid d in
    let sound = Steps-Sound i steps x (omega arith) kept_before in
    Past-trans before (
      Act-Past (slot_of t.mem) (ring_of i t) p a before.done valid
        (moved-Act i single_publisher choice p t (t.pc p) (sound.seen p) sound.count room) refl)
Steps-Past i {s} a (others {t} steps r k) x room kept valid d =
    let before = Steps-Past i a steps x room kept valid d in
    record {
      done = record { taken = before.done.taken; over = before.done.over };
      same_message = before.same_message;
      left = λ j ne h.
          before.left j ne (ap (λ (row : ℕ → RingEntry). (row j).seq) (sym k.same_row) ∙ h);
    }
