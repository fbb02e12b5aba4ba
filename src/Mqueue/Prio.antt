-- ===== src/Mqueue/Prio.antt =====
-- `compMess` of src/mqueue.c orders the messages.
use tinker.Base.{◌≤◌, ◌<◌, ◌≡◌, ◌⊎◌, arith}
use tinker.Search.Sort.{is_below, is_above}
use tinker.Search.Scans.{InOrder, IsOrder}
use tinker.Mqueue.State.{Order, Mess}
use tinker.Mqueue.Sort.{comp_mess}

-- The message `x` goes before `y` or stands for it: its priority is higher, or at the same priority
-- it is older, or at the same time it came first.
abbrev pub Precedes : Order → Order → Type 0
Precedes x y =
    (y.prio < x.prio)
    ⊎ ((x.prio ≡ y.prio) × ((x.time < y.time) ⊎ ((x.time ≡ y.time) × (x.in_order ≤ y.in_order))))

pub InOrder-Precedes : (x y : Mess) → InOrder comp_mess x y → Precedes x.order y.order
InOrder-Precedes x y h = ground arith

pub Precedes-InOrder : (x y : Mess) → Precedes x.order y.order → InOrder comp_mess x y
Precedes-InOrder x y h = ground arith

Precedes-trans : (x y z : Order) → Precedes x y → Precedes y z → Precedes x z
Precedes-trans x y z g h = ground arith

comp_mess-flip : (x y : Mess) → is_below (comp_mess x y) ≡ is_above (comp_mess y x)
comp_mess-flip x y = ground arith

pub comp_mess-IsOrder : IsOrder comp_mess
comp_mess-IsOrder = record {
  flip = comp_mess-flip;
  chain = λ x y z g h.
      Precedes-InOrder x z
        (Precedes-trans x.order y.order z.order (InOrder-Precedes x y g) (InOrder-Precedes y z h));
}
