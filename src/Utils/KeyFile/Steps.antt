-- ===== src/Utils/KeyFile/Steps.antt =====
-- The file operations of src/utils/node_keys.rs, one by one: what they leave alone and what they write.
use hush_net_backend.Prelude.{
  suc, String, Bool, true, false, ◌≡◌, refl, ap, ◌∙◌, subst, Option, none, some, if◌then◌else◌,
  arith,
}
use hush_net_backend.Store.{World, Fault, fine, refused, lost, Result, ok, err, Exec, pure, ◌>>=◌}
use hush_net_backend.Utils.KeyFile.{
  StartError, io_error, disk_result, disk_effect, make_dir, write_file, read_file,
  get_node_keys_path,
}

-- `v` comes from `w` by operations that leave the file and the script of the outside alone.
pub record SameFile (w v : World) : Type 0 where
  pub same_file : v.key_file ≡ w.key_file
  pub same_env : v.env ≡ w.env
  pub same_sent : v.sent ≡ w.sent

SameFile-refl : (w : World) → SameFile w w
SameFile-refl w = record { same_file = refl; same_env = refl; same_sent = refl }

pub make_dir-SameFile : (e : StartError) (w : World) → SameFile w (make_dir e w).1
unfolding make_dir
make_dir-SameFile e w = go (w.env.disk w.calls)
  where
    next : World
    next = record w { calls = suc w.calls }

    go : (f : Fault) → SameFile w (disk_effect f (record next { key_dir = true }) next next)
    go fine = record { same_file = refl; same_env = refl; same_sent = refl }
    go refused = record { same_file = refl; same_env = refl; same_sent = refl }
    go lost = record { same_file = refl; same_env = refl; same_sent = refl }

dir_if-SameFile :
    (b : Bool) (e : StartError) (w : World) → SameFile w ((if b then pure tt else make_dir e) w).1
unfolding ◌>>=◌
dir_if-SameFile true e w = SameFile-refl w
dir_if-SameFile false e w = make_dir-SameFile e w

pub path-SameFile : (w : World) → SameFile w (get_node_keys_path w).1
unfolding get_node_keys_path ◌>>=◌
path-SameFile w = dir_if-SameFile w.key_dir _ w

pub SameFile-at :
    {A : Type 0} (m : Exec StartError A) {w v : World} {r : Result StartError A}
    → SameFile w (m w).1
    → m w ≡ (r, v)
    → SameFile w v
SameFile-at m {w} s e = subst (λ x. SameFile w x.1) e s

pub SameFile-trans : {u v w : World} → SameFile u v → SameFile v w → SameFile u w
SameFile-trans h k = record {
  same_file = k.same_file ∙ h.same_file;
  same_env = k.same_env ∙ h.same_env;
  same_sent = k.same_sent ∙ h.same_sent;
}

pub record Wrote (text : String) (w v : World) : Type 0 where
  pub written : v.key_file ≡ some text
  pub env_same : v.env ≡ w.env
  pub sent_same : v.sent ≡ w.sent

pub write-Wrote : (text : String) (w v : World) → write_file text w ≡ (ok tt, v) → Wrote text w v
unfolding write_file
write-Wrote text w v e = go (w.env.disk w.calls) (ap (λ x. x.0) e) (ap (λ x. x.1) e)
  where
    next : World
    next = record w { calls = suc w.calls }

    go :
        (f : Fault)
        → disk_result io_error f ≡ ok tt
        → disk_effect f
            (record next { key_file = some text })
            (record next { key_file = some "" })
            next
          ≡ v
        → Wrote text w v
    go fine h k =
        subst (Wrote text w) k (record { written = refl; env_same = refl; sent_same = refl })
    go refused h k = ground arith
    go lost h k = ground arith

pub record FileRead (text : String) (w v : World) : Type 0 where
  pub read : w.key_file ≡ some text
  pub unchanged : SameFile w v

pub read_file-FileRead :
    (text : String) (w v : World) → read_file w ≡ (ok text, v) → FileRead text w v
unfolding read_file
read_file-FileRead text w v e = record {
  read = go (w.env.disk w.calls) w.key_file (ap (λ x. x.0) e);
  unchanged =
      subst (SameFile w) (ap (λ x. x.1) e)
        (record { same_file = refl; same_env = refl; same_sent = refl });
}
  where
    contents : Option String → Result StartError String
    contents o = elim o [ none ↦ err io_error | some text ↦ ok text ]

    go :
        (f : Fault) (o : Option String)
        → elim (disk_result io_error f) [ ok _ ↦ contents o | err e ↦ err e ] ≡ ok text
        → o ≡ some text
    go fine none h = ground arith
    go fine (some t) h = ground arith
    go refused o h = ground arith
    go lost o h = ground arith
