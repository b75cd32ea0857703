-- ===== src/Tests/Codecs.antt =====
-- A way to write the messages as bytes, which shows that the laws of a codec can hold: numbers as they
-- are, and lists behind their length.
use modern_flux.Base.{
  ℕ, zero, suc, ◌≡◌, refl, ap, ◌∙◌, Option, none, some, List, [], ◌∷◌, length, get_or,
}
use modern_flux.Base.Int.{ℤ, pos, negsuc}
use modern_flux.Base.Bytes.{Bytes}
use modern_flux.Message.{
  ReportItem, QuotaReq, QuotaRsp, ProcReport, SetQuotaReq, ProcQ, SetQuotaRsp,
}
use modern_flux.Packet.{Codec, IsLawful, CmdBase, CmdBaseResp}

-- A writer in front of a rest, and its reader.
pub record Format {ℓ} (A : Type ℓ) : Type ℓ where
  pub put : A → Bytes → Bytes
  pub get : Bytes → Option (A × Bytes)
  pub law : (a : A) (rest : Bytes) → get (put a rest) ≡ some (a, rest)

abbrev pub get_nat : Bytes → Option (ℕ × Bytes)
get_nat [] = none
get_nat (n ∷ rest) = some (n, rest)

abbrev pub nat : Format ℕ
nat = record { put = λ n rest. n ∷ rest; get = get_nat; law = λ n rest. refl }

abbrev pub put_int : ℤ → Bytes → Bytes
put_int (pos n) rest = 0 ∷ n ∷ rest
put_int (negsuc n) rest = 1 ∷ n ∷ rest

abbrev pub get_int : Bytes → Option (ℤ × Bytes)
get_int (zero ∷ n ∷ rest) = some (pos n, rest)
get_int (suc s ∷ n ∷ rest) = some (negsuc n, rest)
get_int _ = none

pub int_law : (z : ℤ) (rest : Bytes) → get_int (put_int z rest) ≡ some (z, rest)
int_law (pos n) rest = refl
int_law (negsuc n) rest = refl

abbrev pub int : Format ℤ
int = record { put = put_int; get = get_int; law = int_law }

module _ {A : Type 0} {B : Type 0} where
  abbrev pub pair_with : A → Option (B × Bytes) → Option ((A × B) × Bytes)
  pair_with a none = none
  pair_with a (some (b, rest)) = some ((a, b), rest)

  abbrev pub then_get : Option (A × Bytes) → (Bytes → Option (B × Bytes)) → Option ((A × B) × Bytes)
  then_get none g = none
  then_get (some (a, rest)) g = pair_with a (g rest)

  pub both_law :
      (f : Format A) (g : Format B) (p : A × B) (rest : Bytes)
      → then_get (f.get (f.put p.0 (g.put p.1 rest))) g.get ≡ some (p, rest)
  both_law f g p rest =
      ap (λ o. then_get o g.get) (f.law p.0 (g.put p.1 rest)) ∙ ap (pair_with p.0) (g.law p.1 rest)

  abbrev pub both : Format A → Format B → Format (A × B)
  both f g = record {
    put = λ p rest. f.put p.0 (g.put p.1 rest);
    get = λ s. then_get (f.get s) g.get;
    law = both_law f g;
  }

  abbrev pub then_make : (A → B) → Option (A × Bytes) → Option (B × Bytes)
  then_make h none = none
  then_make h (some (a, rest)) = some (h a, rest)

  pub along_law :
      (to : B → A) (from : A → B) (f : Format A)
      → ((b : B) → from (to b) ≡ b)
      → (b : B) (rest : Bytes) → then_make from (f.get (f.put (to b) rest)) ≡ some (b, rest)
  along_law to from f back b rest =
      ap (then_make from) (f.law (to b) rest) ∙ ap (λ (c : B). some (c, rest)) (back b)

  -- Along two functions, the second of which undoes the first.
  abbrev pub along : (to : B → A) (from : A → B) → ((b : B) → from (to b) ≡ b) → Format A → Format B
  along to from back f = record {
    put = λ b rest. f.put (to b) rest;
    get = λ s. then_make from (f.get s);
    law = along_law to from f back;
  }

module _ {A : Type 0} (f : Format A) where
  abbrev pub put_items : List A → Bytes → Bytes
  put_items [] rest = rest
  put_items (a ∷ xs) rest = f.put a (put_items xs rest)

  abbrev pub push_item : A → Option (List A × Bytes) → Option (List A × Bytes)
  push_item a none = none
  push_item a (some (xs, rest)) = some (a ∷ xs, rest)

  abbrev pub get_items : ℕ → Bytes → Option (List A × Bytes)
  get_items zero s = some ([], s)
  get_items (suc n) s = elim (f.get s) [
    | none ↦ none
    | some (a, rest) ↦ push_item a (get_items n rest)
  ]

  pub items_law :
      (xs : List A) (rest : Bytes) → get_items (length xs) (put_items xs rest) ≡ some (xs, rest)
  items_law [] rest = refl
  items_law (a ∷ xs) rest = rw (f.law a (put_items xs rest), items_law xs rest) refl

  abbrev pub get_list : Bytes → Option (List A × Bytes)
  get_list [] = none
  get_list (n ∷ rest) = get_items n rest

  abbrev pub items : Format (List A)
  items = record { put = λ xs rest. length xs ∷ put_items xs rest; get = get_list; law = items_law }

abbrev pub text : Format Bytes
text = items nat

abbrev pub report_format : Format ReportItem
report_format =
    along (λ (r : ReportItem). (r.timekey, r.reportnum ∷ r.refuse ∷ r.setrefuse ∷ []))
      (λ t. record {
        timekey = t.0;
        reportnum = get_or t.1 0 (pos 0);
        refuse = get_or t.1 1 (pos 0);
        setrefuse = get_or t.1 2 (pos 0);
      })
      (λ r. refl) (both int (items int))

abbrev pub quota_req : Format QuotaReq
quota_req =
    along
      (λ (r : QuotaReq). (
        ((((r.key, r.referkey), r.serial), r.setkey), r.reportitem),
        r.localquota ∷ r.id ∷ r.totalquota ∷ r.nowsum ∷ r.workernum ∷ [],
      ))
      (λ t. record {
        key = t.0.0.0.0.0;
        referkey = t.0.0.0.0.1;
        serial = t.0.0.0.1;
        setkey = t.0.0.1;
        reportitem = t.0.1;
        localquota = get_or t.1 0 (pos 0);
        id = get_or t.1 1 (pos 0);
        totalquota = get_or t.1 2 (pos 0);
        nowsum = get_or t.1 3 (pos 0);
        workernum = get_or t.1 4 (pos 0);
      })
      (λ r. refl)
      (both (both (both (both (both text text) text) text) (items report_format)) (items int))

abbrev pub quota_rsp : Format QuotaRsp
quota_rsp =
    along
      (λ (r : QuotaRsp). (
        (r.key, r.serial),
        r.localq ∷ r.totalq ∷ r.partnernum ∷ r.ipnum ∷ r.alloctype ∷ r.allocpartnum ∷ r.alloctime
            ∷ r.self ∷ r.total ∷ r.nowsum ∷ r.totalworkernum ∷ r.setquota ∷ r.setsum ∷ r.procquota
            ∷ [],
      ))
      (λ t. record {
        key = t.0.0;
        serial = t.0.1;
        localq = get_or t.1 0 (pos 0);
        totalq = get_or t.1 1 (pos 0);
        partnernum = get_or t.1 2 (pos 0);
        ipnum = get_or t.1 3 (pos 0);
        alloctype = get_or t.1 4 (pos 0);
        allocpartnum = get_or t.1 5 (pos 0);
        alloctime = get_or t.1 6 (pos 0);
        self = get_or t.1 7 (pos 0);
        total = get_or t.1 8 (pos 0);
        nowsum = get_or t.1 9 (pos 0);
        totalworkernum = get_or t.1 10 (pos 0);
        setquota = get_or t.1 11 (pos 0);
        setsum = get_or t.1 12 (pos 0);
        procquota = get_or t.1 13 (pos 0);
      })
      (λ r. refl) (both (both text text) (items int))

abbrev pub cmd_base : Format CmdBase
cmd_base =
    along (λ (r : CmdBase). (r.body, r.seq_id ∷ r.cmd_id ∷ r.type ∷ []))
      (λ t. record {
        body = t.0;
        seq_id = get_or t.1 0 (pos 0);
        cmd_id = get_or t.1 1 (pos 0);
        type = get_or t.1 2 (pos 0);
      })
      (λ r. refl) (both text (items int))

abbrev pub cmd_base_resp : Format CmdBaseResp
cmd_base_resp =
    along (λ (r : CmdBaseResp). ((r.err_msg, r.resp), r.ret ∷ []))
      (λ t. record { err_msg = t.0.0; resp = t.0.1; ret = get_or t.1 0 (pos 0) }) (λ r. refl)
      (both (both text text) (items int))

abbrev pub proc_report : Format ProcReport
proc_report =
    along (λ (r : ProcReport). ((r.procid, r.setkey), r.proclist))
      (λ t. record { procid = t.0.0; setkey = t.0.1; proclist = t.1 }) (λ r. refl)
      (both (both text text) (items report_format))

abbrev pub set_req : Format SetQuotaReq
set_req =
    along (λ (r : SetQuotaReq). (((r.setkey, r.itemlist), r.procitem), r.workernum ∷ r.id ∷ []))
      (λ t. record {
        setkey = t.0.0.0;
        itemlist = t.0.0.1;
        procitem = t.0.1;
        workernum = get_or t.1 0 (pos 0);
        id = get_or t.1 1 (pos 0);
      })
      (λ r. refl) (both (both (both text (items report_format)) (items proc_report)) (items int))

abbrev pub proc_format : Format ProcQ
proc_format =
    along (λ (r : ProcQ). (r.procid, r.procquota ∷ []))
      (λ t. record { procid = t.0; procquota = get_or t.1 0 (pos 0) }) (λ r. refl)
      (both text (items int))

abbrev pub set_rsp : Format SetQuotaRsp
set_rsp =
    along (λ (r : SetQuotaRsp). ((r.setkey, r.procq), r.setsum ∷ []))
      (λ t. record { setkey = t.0.0; procq = t.0.1; setsum = get_or t.1 0 (pos 0) }) (λ r. refl)
      (both (both text (items proc_format)) (items int))

-- A reader of the whole.
abbrev pub whole : {A : Type 0} → Option (A × Bytes) → Option A
whole none = none
whole (some (a, rest)) = some a

abbrev pub to_codec : {A : Type 0} → Format A → Codec A
to_codec f = record { serialize = λ a. f.put a []; parse = λ s. whole (f.get s) }

pub to_codec-IsLawful : {A : Type 0} (f : Format A) → IsLawful (to_codec f)
to_codec-IsLawful f a = ap whole (f.law a [])
