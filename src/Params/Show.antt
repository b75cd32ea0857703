-- ===== src/Params/Show.antt =====
-- GetAllPara of QuaServer/ServiceQua.cpp: the limits of an activity as a text.
use modern_flux.Base.{ℕ, Option, ◌++◌}
use modern_flux.Base.Int.{pos}
use modern_flux.Base.Bytes.{Bytes, bytes}
use modern_flux.Text.Number.{to_string}
use modern_flux.Params.{
  Flux, get_win_len, get_err_num, get_err_num_rate, get_cpu_rate, get_cpu_interval, get_mem_rate,
}

-- `<< name << number`
abbrev show : Bytes → ℕ → Bytes
show name n = name ++ to_string (pos n)

unfoldable pub get_all_para : Option Flux → Bytes
get_all_para flux =
    show (bytes " winlen:") (get_win_len flux)
    ++ (show (bytes " ErrNum:") (get_err_num flux)
        ++ (show (bytes " ErrNumRate:") (get_err_num_rate flux)
            ++ (show (bytes " GetCPURate:") (get_cpu_rate flux)
                ++ (show (bytes " GetCPUInterval:") (get_cpu_interval flux)
                    ++ show (bytes " GetMemRate:") (get_mem_rate flux)))))
