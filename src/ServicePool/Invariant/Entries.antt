-- ===== src/ServicePool/Invariant/Entries.antt =====
-- internal/goios/pool.go: steps that make an entry, share it, close it, or take and return its permit.
use spyder.Prelude.{
  ℕ, ◌≡◌, refl, false, Option, none, some, String, string_eq, lookup, lookup-insert, arith,
}
use spyder.Prelude.Map.Unique.{insert-Unique}
use spyder.ServicePool.{Shared, open_conn, install}
use spyder.ServicePool.Threads.{building, built, lost, waiting, offer}
use spyder.ServicePool.Cells.{IsGood, Fits}
use spyder.ServicePool.Invariant.{Kept, quiet}

-- A new connection, that only the thread knows.
pub open_conn-Kept :
    (s : Shared) (udid : String) (generation now : ℕ)
    → IsGood s
    → Kept s (building udid generation) (open_conn s udid generation now, built udid s.size)
unfolding open_conn
open_conn-Kept s udid generation now g = record {
  good = record {
    unique = g.unique;
    mapped = λ d id h. ground (arith, g.mapped d id h);
    lent = λ n d id h. ground (arith, g.lent n d id h);
    counted = λ id h. ground (arith, g.counted id);
    last = λ id h o. ground (arith, g.last id);
    bounded = λ id. ground (arith, g.bounded id);
    halted = g.halted;
  };
  fits = record {
    creates = λ id h. ground arith;
    uses = λ d id h. cc h;
    carries = λ id h. cc h;
    closes = λ id h. cc h;
  };
  others = λ q f a. (
    record {
      creates = λ id h. ground (arith, f.creates id h);
      uses = λ d id h. ground (arith, f.uses d id h);
      carries = λ id h. ground (arith, f.carries id h);
      closes = λ id h. ground (arith, f.closes id h);
    },
    record { created = λ id h j. ground (arith, f.creates id j); carried = λ id h. cc h },
  );
}

-- The thread's connection comes into the map.
pub install-Kept :
    (s : Shared) (udid : String) (k : ℕ)
    → IsGood s
    → Fits s (built udid k)
    → s.stopped ≡ false
    → Kept s (built udid k) (install s udid k, waiting udid k)
unfolding install
install-Kept s udid k g fp running =
    let (small, home, closes, once, kept) = fp.creates k refl in
    record {
      good = record {
        unique = insert-Unique udid k s.entries g.unique;
        mapped = λ d id h.
            ground
              (arith, g.mapped d id, lookup-insert udid d k s.entries, string_eq.beq_iff udid d);
        lent = λ n d id h. ground (arith, g.lent n d id h);
        counted = λ id h. ground (arith, g.counted id);
        last = λ id h o. ground (arith, g.last id);
        bounded = λ id. ground (arith, g.bounded id);
        halted = λ h. cc (h, running);
      };
      fits = record {
        creates = λ id h. cc h;
        uses = λ d id h. ground arith;
        carries = λ id h. cc h;
        closes = λ id h. cc h;
      };
      others = λ q f a. (
        record {
          creates = λ id h. ground (arith, f.creates id h, a.created k refl);
          uses = λ d id h. ground (arith, f.uses d id h);
          carries = λ id h. ground (arith, f.carries id h);
          closes = λ id h. ground (arith, f.closes id h);
        },
        record { created = λ id h. cc h; carried = λ id h. cc h },
      );
    }

pub offer-Kept :
    (s : Shared) (udid : String) (k : ℕ) (found : Option ℕ)
    → lookup udid s.entries ≡ found
    → IsGood s
    → Fits s (built udid k)
    → s.stopped ≡ false
    → Kept s (built udid k) (offer s udid k found)
unfolding install
offer-Kept s udid k none l g f running = install-Kept s udid k g f running
offer-Kept s udid k (some e) l g f running =
    quiet s (built udid k) (lost udid k e) g
      (record {
        creates = λ id h. f.creates id h;
        uses = λ d id h. ground (arith, g.mapped udid e l);
        carries = λ id h. cc h;
        closes = λ id h. cc h;
      })
      (λ id h. h, λ id h. cc h)
