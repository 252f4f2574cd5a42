-- ===== src/Jiutai/Err.antt =====
-- jiutai/jf_err.h: the error codes that the modelled functions return.
use jiufeng.Prelude.{ℕ}

-- The codes other than JF_ERR_NO_ERROR. `other` is any code that is only passed through.
pub data Code : Type 0 where
  out_of_range not_found invalid_param hsm_state_not_found hash_entry_not_found : Code
  msg_queue_full invalid_jiukun_page_order jiukun_out_of_memory : Code
  fail_create_jiukun_cache fail_grow_jiukun_cache unsupported_memory_size : Code
  other : ℕ → Code

-- What a function returns: `no_error` is JF_ERR_NO_ERROR.
pub data Err : Type 0 where
  no_error : Err
  failed : Code → Err

-- What a function leaves behind: its out-parameters on success, or the code that it returns.
pub data Result {ℓ} (A : Type ℓ) : Type ℓ where
  ok : A → Result A
  err : Code → Result A

-- `if (u32Ret == JF_ERR_NO_ERROR) …` behind a call of jf_jiukun_allocMemory, which returned the
-- first argument: the second is what the rest of the function makes.
abbrev pub on_alloc {ℓ} : {A : Type ℓ} → Err → A → Result A
on_alloc no_error a = ok a
on_alloc (failed e) a = err e
