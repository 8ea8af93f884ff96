-- ===== src/Redis/Facts.antt =====
-- What Redis holds of one task, of one worker and of the three queues.
use my_taskflow_system.Common.{ℕ, ◌≡◌, refl, ap, ◌∙◌, false, some, Text, text_eq, codes}
use my_taskflow_system.Common.Maps.{Map}
use my_taskflow_system.Redis.Server.{Server}
use my_taskflow_system.Redis.Tasks.{task_key, load_key}
use my_taskflow_system.Redis.Laws.{RedisLaws, as_hash, as_list}
use my_taskflow_system.Redis.Lists.{push_spec, Queues}
use my_taskflow_system.Redis.Lists as Queues
use my_taskflow_system.Redis.Loads.{LoadIs}
use my_taskflow_system.Redis.Status.{Written}

pub record Facts : Type 0 where
  pub fields : Map Text
  pub load : ℕ
  pub queues : Queues

module _ (S : Server) (laws : RedisLaws S) where
  open S use {State}

  -- The state holds these fields of the task, this load of the worker and these queues.
  pub record Stored (task_id worker_id : Text) (f : Facts) (s : State) : Type 0 where
    pub hash : as_hash (laws.view s (task_key task_id)) ≡ some f.fields
    pub worker : LoadIs S laws worker_id f.load s
    pub waiting : Queues.Holds S laws s f.queues

  -- A write to the key of the task.
  pub Stored-Written :
      (task_id worker_id : Text) (f : Facts) (m : Map Text) (s s' : State)
      → Written S laws (task_key task_id) s s' m
      → Stored task_id worker_id f s
      → Stored task_id worker_id (record f { fields = m }) s'
  unfolding text_eq
  Stored-Written task_id worker_id f m s s' (w, others) h = record {
    hash = w;
    worker = others (load_key worker_id) refl ∙ h.worker;
    waiting = record {
      high_list = ap as_list (others (codes "queue:high") refl) ∙ h.waiting.high_list;
      medium_list = ap as_list (others (codes "queue:medium") refl) ∙ h.waiting.medium_list;
      low_list = ap as_list (others (codes "queue:low") refl) ∙ h.waiting.low_list;
    };
  }

  -- A command that changes nothing but the load.
  pub Stored-LoadIs :
      (task_id worker_id : Text) (f : Facts) (n : ℕ) (s s' : State)
      → LoadIs S laws worker_id n s'
      → ((j : Text) → text_eq (load_key worker_id) j ≡ false → laws.view s' j ≡ laws.view s j)
      → Stored task_id worker_id f s
      → Stored task_id worker_id (record f { load = n }) s'
  unfolding text_eq
  Stored-LoadIs task_id worker_id f n s s' w others h = record {
    hash = ap as_hash (others (task_key task_id) refl) ∙ h.hash;
    worker = w;
    waiting = record {
      high_list = ap as_list (others (codes "queue:high") refl) ∙ h.waiting.high_list;
      medium_list = ap as_list (others (codes "queue:medium") refl) ∙ h.waiting.medium_list;
      low_list = ap as_list (others (codes "queue:low") refl) ∙ h.waiting.low_list;
    };
  }

  -- A command that changes nothing.
  pub Stored-same :
      (task_id worker_id : Text) (f : Facts) (s s' : State)
      → ((j : Text) → laws.view s' j ≡ laws.view s j)
      → Stored task_id worker_id f s
      → Stored task_id worker_id f s'
  Stored-same task_id worker_id f s s' same h = record {
    hash = ap as_hash (same (task_key task_id)) ∙ h.hash;
    worker = same (load_key worker_id) ∙ h.worker;
    waiting = record {
      high_list = ap as_list (same (codes "queue:high")) ∙ h.waiting.high_list;
      medium_list = ap as_list (same (codes "queue:medium")) ∙ h.waiting.medium_list;
      low_list = ap as_list (same (codes "queue:low")) ∙ h.waiting.low_list;
    };
  }
