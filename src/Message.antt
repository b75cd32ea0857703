-- ===== src/Message.antt =====
-- The messages of Protocol/open_app_desc.proto that the quota servers exchange, as they are after
-- parsing; the code that protoc generates from that file is not modelled.
use modern_flux.Base.{List}
use modern_flux.Base.Int.{ℤ}
use modern_flux.Base.Bytes.{Bytes}

pub record ReportItem : Type 0 where
  pub timekey : ℤ
  pub reportnum : ℤ
  pub refuse : ℤ
  pub setrefuse : ℤ

pub record QuotaReq : Type 0 where
  pub key : Bytes
  pub referkey : Bytes
  pub reportitem : List ReportItem
  pub localquota : ℤ
  pub id : ℤ
  pub serial : Bytes
  pub totalquota : ℤ
  pub nowsum : ℤ
  pub workernum : ℤ
  pub setkey : Bytes

pub record QuotaRsp : Type 0 where
  pub key : Bytes
  pub localq : ℤ
  pub totalq : ℤ
  pub partnernum : ℤ
  pub serial : Bytes
  pub ipnum : ℤ
  pub alloctype : ℤ
  pub allocpartnum : ℤ
  pub alloctime : ℤ
  pub self : ℤ
  pub total : ℤ
  pub nowsum : ℤ
  pub totalworkernum : ℤ
  pub setquota : ℤ
  pub setsum : ℤ
  pub procquota : ℤ

pub record ProcReport : Type 0 where
  pub procid : Bytes
  pub proclist : List ReportItem
  pub setkey : Bytes

pub record SetQuotaReq : Type 0 where
  pub setkey : Bytes
  pub itemlist : List ReportItem
  pub workernum : ℤ
  pub id : ℤ
  pub procitem : List ProcReport

pub record ProcQ : Type 0 where
  pub procid : Bytes
  pub procquota : ℤ

pub record SetQuotaRsp : Type 0 where
  pub setkey : Bytes
  pub setsum : ℤ
  pub procq : List ProcQ
