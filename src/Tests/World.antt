-- ===== src/Tests/World.antt =====
-- A school with a tax account and two citizens, Anna and Ben. Anna was given 100 HGC.
use schulealsstaat.Base.{ℕ, ◌*◌, refl, String, true, Option, none, some, [], ◌∷◌, arith}
use schulealsstaat.Base.Int.{pos, ◌+ℤ◌}
use schulealsstaat.Types.{Student, Percent, Entry, Profile, Transaction, Amount}
use schulealsstaat.Server.{Server, Settings, Db, Crypto, Queued}
use schulealsstaat.Actions.Transactions.{Payment}
use schulealsstaat.Ledger.Solvency.{IsSound, IsSolvent-nil, write-IsSolvent}
use schulealsstaat.Ledger.Entries.{IsFair}

abbrev pub crypto : Crypto
crypto = record { sha256 = λ t. t; random_bytes = λ n k. "00" }

abbrev pub citizen : ℕ → String → Student
citizen id qrid = record {
  id = id;
  qrid = qrid;
  firstname = some qrid;
  lastname = none;
  picname = none;
  country = none;
  birth = "1970-1-1";
  type = "8a";
  special_name = none;
  appear = [];
  pwdhash = "pws";
  pwdsalt = "s";
}

abbrev pub taxinc : Student
taxinc = citizen 1 "taxinc"

abbrev pub anna : Student
anna = citizen 2 "anna"

abbrev pub ben : Student
ben = citizen 3 "ben"

abbrev pub ten_percent : Percent
ten_percent = record { num = 10; den = 1 }

-- One HGC.
abbrev pub hgc : ℕ
hgc = 1000000000000

abbrev pub profile : Option ℕ → String → Profile
profile r q = record {
  reference = r;
  special_name = none;
  firstname = none;
  lastname = none;
  country = none;
  type = none;
  qrid = q;
}

abbrev pub gift : Entry
gift = record {
  sender = profile none "Zentralbank";
  recipient = profile (some 2) "anna";
  tax_recipient = 1;
  time = 0;
  amount_sent = pos (100 * hgc);
  amount_received = pos (100 * hgc);
  amount_tax = pos 0;
  percent_tax = record { num = 0; den = 1 };
  comment = none;
}

abbrev pub stored_gift : Transaction
stored_gift = record { id = 7; entry = gift }

-- Anna pays 60 HGC to Ben, 10 of them as tax.
abbrev pub purchase : Entry
purchase = record {
  sender = profile (some 2) "anna";
  recipient = profile (some 3) "ben";
  tax_recipient = 1;
  time = 5;
  amount_sent = pos (60 * hgc);
  amount_received = pos (50 * hgc);
  amount_tax = pos (10 * hgc);
  percent_tax = ten_percent;
  comment = none;
}

abbrev pub settings : Settings
settings = record {
  hgc_tr_decimal_places = 2;
  hgc_decimal_places = 5;
  taxinc_qrid = "taxinc";
  transaction_tax_percent = ten_percent;
  tr_comment_maxlen = 300;
  magic_account = "Zentralbank";
  poll_max = 50;
  pending_timeout = 180;
}

abbrev pub db : Db
db = record {
  students = taxinc ∷ anna ∷ ben ∷ [];
  transactions = stored_gift ∷ [];
  pending = record { id = 9; sender = 2; time = 5 } ∷ [];
  next_id = 10;
  connected = true;
}

-- Anna's purchase waits at the head of the queue.
abbrev pub waiting : Queued
waiting = record { trid = 9; sender = 2; entry = purchase; answer = 1 }

abbrev pub world : Server
world = record {
  db = db;
  settings = settings;
  queue = some waiting ∷ [];
  polls = [];
  answers = [];
  clock = 6;
  random_calls = 0;
}

pub gift-IsFair : IsFair gift
unfolding ◌+ℤ◌
gift-IsFair = record {
  sent_nonneg = omega arith;
  received_nonneg = omega arith;
  tax_nonneg = omega arith;
  adds_up = refl;
}

pub purchase-IsFair : IsFair purchase
unfolding ◌+ℤ◌
purchase-IsFair = record {
  sent_nonneg = omega arith;
  received_nonneg = omega arith;
  tax_nonneg = omega arith;
  adds_up = refl;
}

pub world-IsSound : IsSound world
world-IsSound = record {
  configured = record { places = omega arith; percent = omega arith };
  solvent = write-IsSolvent [] stored_gift IsSolvent-nil gift-IsFair tt;
  queue_fair = ((purchase-IsFair, refl), tt);
  stored_fair = (gift-IsFair, tt);
  queue_ids = (omega arith, tt, tt);
}

-- Anna pays Ben 2.50 HGC, net.
abbrev pub payment : Payment
payment = record {
  sender = "anna";
  sender_password = "pw";
  recipient = "ben";
  amount_sent = Amount.absent;
  amount_received = Amount.number (pos 2500000000000);
  comment = none;
}
